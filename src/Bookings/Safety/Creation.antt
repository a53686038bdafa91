-- ===== src/Bookings/Safety/Creation.antt =====
-- Creating a booking keeps the inventory invariant, if it asks for rooms of different types.
use hotelsb2b.Common.{
  ℕ, suc, ◌≡◌, ◌≢◌, refl, ◌∙◌, inl, inr, true, false, some, List, ◌∷◌, Memᴰ, find, arith, ◌==◌,
  Option-cases,
}
use mathlib.Core.List.Memᴰ
use hotelsb2b.Schema.{
  Db, RoomBlock, Booking, BookingRoom, BookingStatus, pending_payment, confirmed, checked_in,
  checked_out, cancelled, no_show,
}
use hotelsb2b.Availability.Inventory.{
  holds_inventory, booking_has, overlapping_booking, overlapping_block,
}
use hotelsb2b.Bookings.Assign.{is_active}
use hotelsb2b.Bookings.Create.{CreateBookingDto, RoomInput, room_rows}
use hotelsb2b.Bookings.Create.Service.{write_booking}
use hotelsb2b.Bookings.Safety.{clash, blocked, IsSafe}
use hotelsb2b.Bookings.Safety.Lookup.{booking_has-old}
use hotelsb2b.Bookings.Safety.Assignment.{clash_comm}
use hotelsb2b.Bookings.Safety.Rows.{
  DistinctRooms, IsRowOf, room_rows-IsRowOf, room_rows-by_id, room_rows-apart,
}
use hotelsb2b.Bookings.Safety.Placement.{IsPlaced}

is_active-holds : (s : BookingStatus) → is_active s ≡ true → holds_inventory s ≡ true
is_active-holds pending_payment h = refl
is_active-holds confirmed h = refl
is_active-holds checked_in h = refl
is_active-holds checked_out h = refl
is_active-holds cancelled h = h
is_active-holds no_show h = h

active-holds :
    (bs : List Booking) (id : ℕ)
    → booking_has is_active bs id ≡ true
    → booking_has holds_inventory bs id ≡ true
unfolding booking_has
active-holds bs id h = elim (Option-cases (find (λ b. b.id == id) bs)) [
  | inl e ↦ rw (e, booking_has) (rw (e, booking_has) at h)
  | inr (b, e) ↦ rw (e, booking_has) (is_active-holds b.status (rw (e, booking_has) at h))
]

-- A row of the stay clashes with no row that the reserving query has passed over.
clear :
    (db : Db) (bs : List Booking) (check_in check_out r q : ℕ) (x y : BookingRoom)
    → x.room_id ≡ some r
    → x.check_in ≡ check_in
    → x.check_out ≡ check_out
    → q ≡ r
    → overlapping_booking db q check_in check_out y ≡ false
    → booking_has is_active bs y.booking_id ≡ booking_has is_active db.bookings y.booking_id
    → clash bs x y ≡ false
unfolding overlapping_booking
clear db bs check_in check_out r q x y er ei eo eq h old =
    ground (arith, active-holds db.bookings y.booking_id)

clear_block :
    (bs : List Booking) (check_in check_out r q : ℕ) (x : BookingRoom) (k : RoomBlock)
    → x.room_id ≡ some r
    → x.check_in ≡ check_in
    → x.check_out ≡ check_out
    → q ≡ r
    → overlapping_block q check_in check_out k ≡ false
    → blocked bs x k ≡ false
unfolding overlapping_block
clear_block bs check_in check_out r q x k er ei eo eq h = ground arith

module _ (db : Db) (b : Booking) (dto : CreateBookingDto) (inputs : List RoomInput) (s : IsSafe db)
    (fresh : b.id ≡ db.next_id)
    (placed : (i : RoomInput) → Memᴰ i inputs → IsPlaced db b.property_id b.check_in b.check_out i)
    (distinct : DistinctRooms inputs) where
  abbrev bookings : List Booking
  bookings = b ∷ db.bookings

  abbrev new_rows : List BookingRoom
  new_rows = room_rows (suc db.next_id) b.id b.property_id b.check_in b.check_out b.currency inputs

  abbrev IsNew : BookingRoom → Type 0
  IsNew a = IsRowOf b.id b.property_id b.check_in b.check_out b.currency (suc db.next_id) inputs a

  is_new : (a : BookingRoom) → Memᴰ a new_rows → IsNew a
  is_new a m =
      room_rows-IsRowOf b.id b.property_id b.check_in b.check_out b.currency (suc db.next_id) inputs
        a m

  -- An old row sees the status that it saw.
  old-booking :
      (a : BookingRoom)
      → Memᴰ a db.booking_rooms
      → booking_has is_active bookings a.booking_id ≡ booking_has is_active db.bookings a.booking_id
  old-booking a m =
      booking_has-old is_active b db.bookings a.booking_id
        (λ e. absurd (omega (arith, e, fresh, s.rows_fresh a m)))

  new_old :
      (a c : BookingRoom) → Memᴰ a new_rows → Memᴰ c db.booking_rooms → clash bookings a c ≡ false
  new_old a c m n =
      let row = is_new a m in
      let p = placed row.input row.listed in
      clear db bookings b.check_in b.check_out row.input.room_id p.room.id a c row.room row.from
        row.to p.same_id (p.free.unbooked c n) (old-booking c n)

  pub IsSafe-write_booking : IsSafe (write_booking db b dto inputs)
  unfolding write_booking
  IsSafe-write_booking = record {
    apart = λ a c m n ne. elim (Memᴰ.append_cases new_rows m) [
      | inl m' ↦ elim (Memᴰ.append_cases new_rows n) [
        | inl n' ↦ new_new a c m' n' ne
        | inr n' ↦ new_old a c m' n'
      ]
      | inr m' ↦ elim (Memᴰ.append_cases new_rows n) [
        | inl n' ↦ clash_comm bookings a c ∙ new_old c a n' m'
        | inr n' ↦ old_old a c m' n' ne
      ]
    ];
    unblocked = λ a k m n. elim (Memᴰ.append_cases new_rows m) [
      | inl m' ↦ new_block a k m' n
      | inr m' ↦ old_block a k m' n
    ];
    rows_by_id = λ a c m n e. elim (Memᴰ.append_cases new_rows m) [
      | inl m' ↦ elim (Memᴰ.append_cases new_rows n) [
        | inl n' ↦ room_rows-by_id _ _ _ _ _ _ inputs a c m' n' e
        | inr n' ↦ absurd (omega (arith, (is_new a m').low, s.rows_fresh c n'))
      ]
      | inr m' ↦ elim (Memᴰ.append_cases new_rows n) [
        | inl n' ↦ absurd (omega (arith, (is_new c n').low, s.rows_fresh a m'))
        | inr n' ↦ s.rows_by_id a c m' n' e
      ]
    ];
    rooms_by_id = s.rooms_by_id;
    rows_fresh = λ a m. elim (Memᴰ.append_cases new_rows m) [
      | inl m' ↦ omega (arith, (is_new a m').high, (is_new a m').of_booking, fresh)
      | inr m' ↦ omega (arith, s.rows_fresh a m')
    ];
  }
    where
      new_new :
          (a c : BookingRoom)
          → Memᴰ a new_rows
          → Memᴰ c new_rows
          → a.id ≢ c.id
          → clash bookings a c ≡ false
      new_new a c m n ne = ground (
        arith,
        room_rows-apart b.id b.property_id b.check_in b.check_out b.currency (suc db.next_id) inputs
            a c distinct m n ne,
      )

      old_old :
          (a c : BookingRoom)
          → Memᴰ a db.booking_rooms
          → Memᴰ c db.booking_rooms
          → a.id ≢ c.id
          → clash bookings a c ≡ false
      old_old a c m n ne = ground (arith, s.apart a c m n ne, old-booking a m, old-booking c n)

      new_block :
          (a : BookingRoom) (k : RoomBlock)
          → Memᴰ a new_rows
          → Memᴰ k db.room_blocks
          → blocked bookings a k ≡ false
      new_block a k m n =
          let row = is_new a m in
          let p = placed row.input row.listed in
          clear_block bookings b.check_in b.check_out row.input.room_id p.room.id a k row.room
            row.from row.to p.same_id (p.free.unblocked k n)

      old_block :
          (a : BookingRoom) (k : RoomBlock)
          → Memᴰ a db.booking_rooms
          → Memᴰ k db.room_blocks
          → blocked bookings a k ≡ false
      old_block a k m n = ground (arith, s.unblocked a k m n, old-booking a m)
