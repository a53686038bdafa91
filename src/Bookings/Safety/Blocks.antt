-- ===== src/Bookings/Safety/Blocks.antt =====
-- Blocking a room keeps the inventory invariant.
use hotelsb2b.Common.{
  ℕ, suc, ◌≡◌, sym, subst, inl, inr, false, not, Option, none, some, List, ◌∷◌, any, not_any, find,
  ok, or_throw-eq-ok, guard-eq-ok, ok-injective, arith, ltb, ◌==◌,
}
use mathlib.Core.List.Memᴰ
use hotelsb2b.Schema.{Db, Room, RoomBlock, Booking, BookingRoom}
use hotelsb2b.Dates.{midnight}
use hotelsb2b.Bookings.Assign.{active_overlap}
use hotelsb2b.Bookings.Safety.{blocked, IsSafe}
use hotelsb2b.Rooms.{BlockRoomDto, block_between, block}

unblocked-new :
    (bookings : List Booking) (a : BookingRoom) (k : RoomBlock)
    → active_overlap bookings k.room_id k.start_date k.end_date a ≡ false
    → blocked bookings a k ≡ false
unfolding active_overlap
unblocked-new bookings a k h = ground arith

add_block : Db → RoomBlock → Db
add_block db k = record db { room_blocks = k ∷ db.room_blocks; next_id = suc db.next_id }

add_block-IsSafe :
    (db : Db) (k : RoomBlock)
    → any (active_overlap db.bookings k.room_id k.start_date k.end_date) db.booking_rooms ≡ false
    → IsSafe db
    → IsSafe (add_block db k)
unfolding add_block
add_block-IsSafe db k clear s = record {
  apart = s.apart;
  unblocked = λ a j m n. elim (Memᴰ.cases_cons n) [
    | inl same ↦
        subst (λ x. blocked db.bookings a x ≡ false) (sym same)
          (unblocked-new db.bookings a k (not_any _ db.booking_rooms clear a m))
    | inr old ↦ s.unblocked a j m old
  ];
  rows_by_id = s.rows_by_id;
  rooms_by_id = s.rooms_by_id;
  rows_fresh = λ a m. omega (arith, s.rows_fresh a m);
}

block_between-IsSafe :
    (db : Db) (room : Room) (dto : BlockRoomDto) (start end : Option ℕ) (out : Db × ℕ)
    → IsSafe db
    → block_between db room dto start end ≡ ok out
    → IsSafe out.0
unfolding block_between add_block
block_between-IsSafe db room dto (some start) (some end) out s e =
    let (_, e₁) = guard-eq-ok (ltb start end) _ _ e in
    let (clear, e₂) =
      guard-eq-ok (not (any (active_overlap db.bookings room.id start end) db.booking_rooms)) _ _
        e₁ in
    subst (λ (r : Db × ℕ). IsSafe r.0) (ok-injective e₂) (add_block-IsSafe db _ (ground arith) s)
block_between-IsSafe db room dto none end out s e = absurd (cc)
block_between-IsSafe db room dto (some start) none out s e = absurd (cc)

-- A block that is accepted takes a safe database to a safe one: no room is blocked for a night for
-- which it is booked.
pub block-IsSafe :
    (db : Db) (room_id : ℕ) (dto : BlockRoomDto) (out : Db × ℕ)
    → IsSafe db
    → block db room_id dto ≡ ok out
    → IsSafe out.0
unfolding block
block-IsSafe db room_id dto out s e =
    let (room, _, e₁) = or_throw-eq-ok (find (λ r. r.id == room_id) db.rooms) _ _ e in
    block_between-IsSafe db room dto (midnight dto.start_date) (midnight dto.end_date) out s e₁
