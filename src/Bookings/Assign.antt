-- ===== src/Bookings/Assign.antt =====
-- `assignRoom` of bookings.service.ts. The transaction holds the row lock of the target room.
use hotelsb2b.Common.{
  ℕ, Bool, true, false, not, ◌&&◌, some, List, any, find, update_where, Result, ok, or_throw, guard,
  bad_request, not_found, conflict, ◌>>=◌, ◌>>◌, ◌==◌,
}
use hotelsb2b.Schema.{
  Db, Booking, BookingRoom, BookingStatus, pending_payment, confirmed, checked_in,
  is_out_of_service,
}
use hotelsb2b.Availability.Inventory.{
  overlaps, is_at, holds_inventory, booking_has, overlapping_block,
}

-- PENDING_PAYMENT, CONFIRMED and CHECKED_IN: `ACTIVE_STATUSES` of rooms.service.ts too.
abbrev pub is_active : BookingStatus → Bool
is_active pending_payment = true
is_active confirmed = true
is_active checked_in = true
is_active _ = false

-- The row of an active booking at the room, for dates that overlap `[check_in, check_out)`.
unfoldable pub active_overlap : List Booking → ℕ → ℕ → ℕ → BookingRoom → Bool
active_overlap bookings room_id check_in check_out br =
    (is_at br.room_id room_id && booking_has is_active bookings br.booking_id)
    && overlaps br.check_in br.check_out check_in check_out

-- `clashBooking`, for the row `own` that is being assigned.
unfoldable pub clash_booking : List Booking → ℕ → BookingRoom → BookingRoom → Bool
unfolding active_overlap
clash_booking bookings room_id own br =
    not (br.id == own.id) && active_overlap bookings room_id own.check_in own.check_out br

-- The row is given its room: `update({ where: { id }, data: { roomId } })`.
unfoldable pub set_room : ℕ → ℕ → Db → Db
set_room booking_room_id room_id db = record db {
  booking_rooms =
      update_where (λ (br : BookingRoom). br.id == booking_room_id)
        (λ br. record br { room_id = some room_id }) db.booking_rooms;
}

-- Every booking row has its booking (a foreign key), so the missing one is no case of the source.
unfoldable pub assign_room : Db → ℕ → ℕ → Result Db
assign_room db booking_room_id room_id = do
  br ←
      or_throw (find (λ b. b.id == booking_room_id) db.booking_rooms)
        (not_found "Booking room not found")
  guard (booking_has holds_inventory db.bookings br.booking_id)
      (bad_request "Booking is not active")
  room ← or_throw (find (λ r. r.id == room_id) db.rooms) (not_found "Room not found")
  guard (room.active && not (is_out_of_service room.status)) (bad_request "Room is not assignable")
  guard (room.property_id == br.property_id) (bad_request "Room belongs to a different property")
  guard (room.room_type_id == br.room_type_id)
      (bad_request "Room type does not match the booked room type")
  guard (not (any (clash_booking db.bookings room_id br) db.booking_rooms))
      (conflict "That room is already assigned for overlapping dates")
  guard (not (any (overlapping_block room_id br.check_in br.check_out) db.room_blocks))
      (conflict "That room is blocked for these dates")
  ok (set_room booking_room_id room_id db)
