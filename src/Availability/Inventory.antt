-- ===== src/Availability/Inventory.antt =====
-- The inventory queries of availability.service.ts: `overlappingBookingSql`,
-- `overlappingBlockSql`, `countAvailableRooms`, `reserveAvailableRoom` and `computeAvailability`.
-- A join on a primary key has at most one row, so `JOIN "Booking"` is a lookup. The order of room
-- numbers is the database's collation, the section's `precedes`. A date that is compared after a
-- cast to `date` is a midnight in UTC already. `locked` holds the rooms whose rows other
-- transactions have locked at the time of the statement.
pub mod Laws
use hotelsb2b.Common.{
  ℕ, ◌≡◌, Bool, true, false, not, ◌&&◌, Option, none, some, List, [], ◌∷◌, Text, any, find, select,
  length, Result, ok, err, or_throw, conflict, ◌>>=◌, ltb, leb, ◌==◌, if◌then◌else◌,
}
use hotelsb2b.Schema.{
  Db, Room, RoomBlock, Booking, BookingRoom, BookingStatus, pending_payment, confirmed, checked_in,
  cancelled, no_show, is_out_of_service,
}

-- `[a, b)` and `[c, d)` have a night in common: `a < d AND b > c`.
abbrev pub overlaps : ℕ → ℕ → ℕ → ℕ → Bool
overlaps a b c d = ltb a d && ltb c b

-- `column = value`, where the column may be null.
abbrev pub is_at : Option ℕ → ℕ → Bool
is_at none r = false
is_at (some q) r = q == r

-- `b.status NOT IN ('CANCELLED', 'NO_SHOW')`.
abbrev pub holds_inventory : BookingStatus → Bool
holds_inventory cancelled = false
holds_inventory no_show = false
holds_inventory _ = true

-- The booking of a row, seen through its status.
unfoldable pub booking_has : (BookingStatus → Bool) → List Booking → ℕ → Bool
booking_has test bookings id = elim (find (λ b. b.id == id) bookings) [
  | none ↦ false
  | some b ↦ test b.status
]

unfoldable pub overlapping_booking : Db → ℕ → ℕ → ℕ → BookingRoom → Bool
overlapping_booking db room_id check_in check_out br =
    (is_at br.room_id room_id && booking_has holds_inventory db.bookings br.booking_id)
    && overlaps br.check_in br.check_out check_in check_out

unfoldable pub overlapping_block : ℕ → ℕ → ℕ → RoomBlock → Bool
overlapping_block room_id check_in check_out rb =
    (rb.room_id == room_id) && overlaps rb.start_date rb.end_date check_in check_out

-- The `WHERE` clause that the counting and the reserving query share.
unfoldable pub is_free : Db → ℕ → ℕ → ℕ → ℕ → Room → Bool
is_free db property_id room_type_id check_in check_out r =
    ((r.property_id == property_id) && (r.room_type_id == room_type_id))
    && (r.active && not (is_out_of_service r.status))
    && not (any (overlapping_booking db r.id check_in check_out) db.booking_rooms)
    && not (any (overlapping_block r.id check_in check_out) db.room_blocks)

unfoldable pub count_available_rooms : Db → ℕ → ℕ → ℕ → ℕ → ℕ
count_available_rooms db property_id room_type_id check_in check_out =
    length (select (is_free db property_id room_type_id check_in check_out) db.rooms)

unfoldable pub is_locked : List ℕ → Room → Bool
is_locked locked r = any (λ i. i == r.id) locked

module _ (precedes : Text → Text → Bool) where
  -- `ORDER BY r.number … LIMIT 1`.
  unfoldable pub first_by_number : List Room → Option Room
  first_by_number [] = none
  first_by_number (r ∷ rs) = elim (first_by_number rs) [
    | none ↦ some r
    | some q ↦ if precedes q.number r.number then some q else some r
  ]

  -- A locked row is skipped before the limit counts it.
  unfoldable pub reserve_available_room : List ℕ → Db → ℕ → ℕ → ℕ → ℕ → Result ℕ
  reserve_available_room locked db property_id room_type_id check_in check_out = do
    r ←
        or_throw
          (first_by_number (
            select
              (λ q.
                is_free db property_id room_type_id check_in check_out q
                && not (is_locked locked q))
              db.rooms))
          (conflict "No availability for the selected room type and dates")
    ok r.id
