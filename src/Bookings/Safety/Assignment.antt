-- ===== src/Bookings/Safety/Assignment.antt =====
-- Assigning a room keeps the inventory invariant.
use hotelsb2b.Common.{
  ℕ, ◌≡◌, ◌≢◌, ◌<◌, sym, ap, ◌∙◌, subst, inl, inr, true, false, not, ◌&&◌, some, List, Memᴰ, any,
  not_any, find, find-mem, update_where, update_where-mem, ok, or_throw-eq-ok, guard-eq-ok,
  ok-injective, arith, ◌==◌, ==_iff, if◌then◌else◌, Bool-cases,
}
use hotelsb2b.Schema.{Db, RoomBlock, Booking, BookingRoom, is_out_of_service}
use hotelsb2b.Availability.Inventory.{overlapping_block, booking_has, holds_inventory}
use hotelsb2b.Bookings.Assign.{clash_booking, set_room, assign_room}
use hotelsb2b.Bookings.Safety.{clash, blocked, IsSafe}

pub clash_comm :
    (bookings : List Booking) (a b : BookingRoom) → clash bookings a b ≡ clash bookings b a
clash_comm bookings a b = ground arith

-- The row after the assignment.
abbrev assigned : ℕ → ℕ → BookingRoom → BookingRoom
assigned i room_id a = if a.id == i then record a { room_id = some room_id } else a

assigned-id : (i room_id : ℕ) (a : BookingRoom) → (assigned i room_id a).id ≡ a.id
assigned-id i room_id a = ground arith

assigned-booking_id :
    (i room_id : ℕ) (a : BookingRoom) → (assigned i room_id a).booking_id ≡ a.booking_id
assigned-booking_id i room_id a = ground arith

-- The assigned row clashes with no other row that the code's query has passed over.
own-apart :
    (bookings : List Booking) (room_id : ℕ) (own b : BookingRoom)
    → clash_booking bookings room_id own b ≡ false
    → own.id ≢ b.id
    → clash bookings (record own { room_id = some room_id }) b ≡ false
unfolding clash_booking
own-apart bookings room_id own b h n = ground arith

own-unblocked :
    (bookings : List Booking) (room_id : ℕ) (own : BookingRoom) (k : RoomBlock)
    → overlapping_block room_id own.check_in own.check_out k ≡ false
    → blocked bookings (record own { room_id = some room_id }) k ≡ false
unfolding overlapping_block
own-unblocked bookings room_id own k h = ground arith

module _ (db : Db) (own : BookingRoom) (room_id : ℕ) (s : IsSafe db)
    (listed : Memᴰ own db.booking_rooms)
    (no_clash : any (clash_booking db.bookings room_id own) db.booking_rooms ≡ false)
    (no_block : any (overlapping_block room_id own.check_in own.check_out) db.room_blocks
      ≡ false) where
  apart-old :
      (a b : BookingRoom)
      → Memᴰ a db.booking_rooms
      → Memᴰ b db.booking_rooms
      → a.id ≢ b.id
      → clash db.bookings (assigned own.id room_id a) (assigned own.id room_id b) ≡ false
  apart-old a b m n ne = elim (Bool-cases (a.id == own.id)) [
    | inl ea ↦ elim (Bool-cases (b.id == own.id)) [
      | inl eb ↦ absurd (ne (omega (arith, (==_iff a.id own.id).0 ea, (==_iff b.id own.id).0 eb)))
      | inr eb ↦ rw (ea, eb) (first a b m n ne ea)
    ]
    | inr ea ↦ elim (Bool-cases (b.id == own.id)) [
      | inl eb ↦
          rw (ea, eb)
            (clash_comm db.bookings a (record b { room_id = some room_id })
              ∙ first b a n m (λ e. ne (sym e)) eb)
      | inr eb ↦ rw (ea, eb) (s.apart a b m n ne)
    ]
  ]
    where
      first :
          (x y : BookingRoom)
          → Memᴰ x db.booking_rooms
          → Memᴰ y db.booking_rooms
          → x.id ≢ y.id
          → (x.id == own.id) ≡ true
          → clash db.bookings (record x { room_id = some room_id }) y ≡ false
      first x y k l ne' e =
          let same : own ≡ x = s.rows_by_id own x listed k (sym ((==_iff x.id own.id).0 e)) in
          subst (λ z. clash db.bookings (record z { room_id = some room_id }) y ≡ false) same
            (own-apart db.bookings room_id own y (not_any _ db.booking_rooms no_clash y l)
              (subst (λ z. z.id ≢ y.id) (sym same) ne'))

  unblocked-old :
      (a : BookingRoom) (k : RoomBlock)
      → Memᴰ a db.booking_rooms
      → Memᴰ k db.room_blocks
      → blocked db.bookings (assigned own.id room_id a) k ≡ false
  unblocked-old a k m n = elim (Bool-cases (a.id == own.id)) [
    | inl e ↦
        let same : own ≡ a = s.rows_by_id own a listed m (sym ((==_iff a.id own.id).0 e)) in
        rw e (
          subst (λ z. blocked db.bookings (record z { room_id = some room_id }) k ≡ false) same
            (own-unblocked db.bookings room_id own k (not_any _ db.room_blocks no_block k n)))
    | inr e ↦ rw e (s.unblocked a k m n)
  ]

  set_room-IsSafe : IsSafe (set_room own.id room_id db)
  unfolding set_room
  set_room-IsSafe = record {
    apart = λ a b m n ne.
        let (x, k, ex) = before a m in
        let (y, l, ey) = before b n in
        let ne' = λ (e : x.id ≡ y.id). ne (
          ap (λ (r : BookingRoom). r.id) ex
          ∙ assigned-id own.id room_id x
          ∙ e
          ∙ sym (ap (λ (r : BookingRoom). r.id) ey ∙ assigned-id own.id room_id y)) in
        rw (ex, ey) (apart-old x y k l ne');
    unblocked = λ a k m n. let (x, l, ex) = before a m in rw ex (unblocked-old x k l n);
    rows_by_id = λ a b m n e.
        let (x, k, ex) = before a m in
        let (y, l, ey) = before b n in
        let e' : x.id ≡ y.id =
          sym (ap (λ (r : BookingRoom). r.id) ex ∙ assigned-id own.id room_id x)
          ∙ e
          ∙ ap (λ (r : BookingRoom). r.id) ey
          ∙ assigned-id own.id room_id y in
        ex ∙ ap (assigned own.id room_id) (s.rows_by_id x y k l e') ∙ sym ey;
    rooms_by_id = s.rooms_by_id;
    rows_fresh = λ a m. let (x, k, ex) = before a m in rw ex (fresh x k);
  }
    where
      fresh :
          (x : BookingRoom)
          → Memᴰ x db.booking_rooms
          → ((assigned own.id room_id x).id < db.next_id)
            × ((assigned own.id room_id x).booking_id < db.next_id)
      fresh x k = omega (
        arith,
        assigned-id own.id room_id x,
        assigned-booking_id own.id room_id x,
        s.rows_fresh x k,
      )

      before :
          (a : BookingRoom)
          → Memᴰ a (
              update_where
                (λ (br : BookingRoom). br.id == own.id)
                (λ br. record br { room_id = some room_id })
                db.booking_rooms)
          → (x : BookingRoom) × Memᴰ x db.booking_rooms × (a ≡ assigned own.id room_id x)
      before a m = update_where-mem _ _ db.booking_rooms a m

-- An assignment that is accepted takes a safe database to a safe one: no room comes to be booked
-- twice for a night, or while it is blocked.
pub assign_room-IsSafe :
    (db : Db) (booking_room_id room_id : ℕ) (db' : Db)
    → IsSafe db
    → assign_room db booking_room_id room_id ≡ ok db'
    → IsSafe db'
unfolding assign_room
assign_room-IsSafe db booking_room_id room_id db' s e =
    let (br, found, e₁) =
      or_throw-eq-ok (find (λ b. b.id == booking_room_id) db.booking_rooms) _ _ e in
    let (_, e₂) = guard-eq-ok (booking_has holds_inventory db.bookings br.booking_id) _ _ e₁ in
    let (room, _, e₃) = or_throw-eq-ok (find (λ r. r.id == room_id) db.rooms) _ _ e₂ in
    let (_, e₄) = guard-eq-ok (room.active && not (is_out_of_service room.status)) _ _ e₃ in
    let (_, e₅) = guard-eq-ok (room.property_id == br.property_id) _ _ e₄ in
    let (_, e₆) = guard-eq-ok (room.room_type_id == br.room_type_id) _ _ e₅ in
    let (clear, e₇) =
      guard-eq-ok (not (any (clash_booking db.bookings room_id br) db.booking_rooms)) _ _ e₆ in
    let (open_, e₈) =
      guard-eq-ok (not (any (overlapping_block room_id br.check_in br.check_out) db.room_blocks)) _
        _ e₇ in
    let (listed, hit) =
      find-mem (λ (b : BookingRoom). b.id == booking_room_id) db.booking_rooms br found in
    let same : br.id ≡ booking_room_id = (==_iff _ _).0 hit in
    subst IsSafe (ap (λ i. set_room i room_id db) same ∙ ok-injective e₈)
      (set_room-IsSafe db br room_id s listed (ground arith) (ground arith))
