-- ===== src/Bookings/Safety.antt =====
-- The inventory invariant of the booking tables, which `create`, `assignRoom`, `transition` and the
-- blocking of rooms are there to keep.
pub mod Lookup
pub mod Reservations
pub mod Rows
pub mod Placement
pub mod Creation
pub mod Created
pub mod FirstCode
pub mod SameType
pub mod Assignment
pub mod Statuses
pub mod Blocks
use hotelsb2b.Common.{
  ℕ, ◌≡◌, ◌≢◌, ◌<◌, Bool, true, false, ◌&&◌, Option, none, some, List, Memᴰ, ◌==◌,
}
use hotelsb2b.Schema.{Db, Room, RoomBlock, Booking, BookingRoom}
use hotelsb2b.Availability.Inventory.{overlaps, is_at, booking_has}
use hotelsb2b.Bookings.Assign.{is_active}

abbrev pub same_room : Option ℕ → Option ℕ → Bool
same_room (some r) (some q) = r == q
same_room _ _ = false

-- Two rows of active bookings hold one room for a common night.
abbrev pub clash : List Booking → BookingRoom → BookingRoom → Bool
clash bookings a b =
    (booking_has is_active bookings a.booking_id && booking_has is_active bookings b.booking_id)
    && (same_room a.room_id b.room_id && overlaps a.check_in a.check_out b.check_in b.check_out)

-- A row of an active booking holds a room for a night on which the room is blocked.
abbrev pub blocked : List Booking → BookingRoom → RoomBlock → Bool
blocked bookings a k =
    booking_has is_active bookings a.booking_id
    && (is_at a.room_id k.room_id && overlaps a.check_in a.check_out k.start_date k.end_date)

-- No room is booked twice for a night, none is booked while it is blocked; and the identifiers
-- identify.
pub record IsSafe (db : Db) : Type 0 where
  pub apart :
      (a b : BookingRoom)
      → Memᴰ a db.booking_rooms
      → Memᴰ b db.booking_rooms
      → a.id ≢ b.id
      → clash db.bookings a b ≡ false
  pub unblocked :
      (a : BookingRoom) (k : RoomBlock)
      → Memᴰ a db.booking_rooms
      → Memᴰ k db.room_blocks
      → blocked db.bookings a k ≡ false
  pub rows_by_id :
      (a b : BookingRoom) → Memᴰ a db.booking_rooms → Memᴰ b db.booking_rooms → a.id ≡ b.id → a ≡ b
  pub rooms_by_id :
      (x y : Room)
      → Memᴰ x db.rooms
      → Memᴰ y db.rooms
      → x.id ≡ y.id
      → x.room_type_id ≡ y.room_type_id
  pub rows_fresh :
      (a : BookingRoom)
      → Memᴰ a db.booking_rooms
      → (a.id < db.next_id) × (a.booking_id < db.next_id)
