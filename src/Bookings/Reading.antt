-- ===== src/Bookings/Reading.antt =====
-- The reads of bookings.service.ts: `listForProperty`, `listForGuest`, `findByIdOrThrow`,
-- `cancellationPreview` and `lookup`. A list is given up to its order, and the rows that are read
-- along with a booking (names of rooms and types) are left out.
pub mod Preview
pub mod Access
use hotelsb2b.Common.{
  ℕ, ◌+◌, ◌-◌, ◌*◌, Bool, true, false, not, ◌&&◌, Option, none, some, List, [], ◌∷◌, Text, text_eq,
  to_upper, to_lower, trim, find, select, Result, ok, err, or_throw, guard, not_found, internal,
  ◌>>=◌, ◌>>◌, ltb, leb, ◌==◌, if◌then◌else◌,
}
use hotelsb2b.Schema.{
  Db, Booking, BookingRoom, RatePlan, CancellationPolicy, refundable, non_refundable, ℤ, pos,
  negsuc,
}
use hotelsb2b.Availability.Inventory.{overlaps, holds_inventory}

-- `listForProperty`.
unfoldable pub list_for_property : Db → ℕ → ℕ → ℕ → List Booking
list_for_property db property_id from to =
    select
      (λ b.
        (b.property_id == property_id)
        && (overlaps b.check_in b.check_out from to && holds_inventory b.status))
      db.bookings

-- `listForGuest`.
unfoldable pub list_for_guest : Db → ℕ → List Booking
list_for_guest db guest_id = select (λ b. b.primary_guest_id == guest_id) db.bookings

-- `findByIdOrThrow`.
unfoldable pub find_by_id_or_throw : Db → ℕ → Result Booking
find_by_id_or_throw db id =
    or_throw (find (λ b. b.id == id) db.bookings) (not_found "Booking not found")

-- `a - b` of two numbers.
abbrev pub minus : ℕ → ℕ → ℤ
minus a b = if leb b a then pos (a - b) else negsuc (b - a - 1)

-- An entry of `rooms`.
pub record RoomPreview : Type 0 where
  pub booking_room_id : ℕ
  pub policy : CancellationPolicy
  pub price_minor : ℕ
  pub refundable_minor : ℕ

pub record CancellationPreview : Type 0 where
  pub currency : Text
  pub total_minor : ℕ
  pub refundable_minor : ℕ
  pub non_refundable_minor : ℤ
  pub rooms : List RoomPreview

-- `now > deadline`, for a plan with a deadline; both sides are moved by the hours before check-in.
unfoldable pub is_over : ℕ → ℕ → Option ℕ → Bool
is_over now check_in none = false
is_over now check_in (some hours) = ltb check_in (now + hours * 3_600_000)

-- `rp.cancellationPolicy === 'REFUNDABLE'`.
unfoldable pub allows_refund : CancellationPolicy → Bool
allows_refund refundable = true
allows_refund non_refundable = false

unfoldable pub is_refundable : ℕ → RatePlan → BookingRoom → Bool
unfolding allows_refund is_over
is_refundable now rp r =
    allows_refund rp.cancellation_policy && not (is_over now r.check_in rp.refundable_until_hrs)

unfoldable pub preview_room : ℕ → RatePlan → BookingRoom → RoomPreview
preview_room now rp r = record {
  booking_room_id = r.id;
  policy = rp.cancellation_policy;
  price_minor = r.price_minor;
  refundable_minor = if is_refundable now rp r then r.price_minor else 0;
}

-- `booking.rooms.map(…)`. A row without its plan is refused by the database client, which reads
-- the plan along.
unfoldable pub preview_rooms : Db → ℕ → List BookingRoom → Result (List RoomPreview)
preview_rooms db now [] = ok []
preview_rooms db now (r ∷ rs) = do
  rp ←
      or_throw (find (λ p. p.id == r.rate_plan_id) db.rate_plans)
        (internal "Inconsistent query result")
  later ← preview_rooms db now rs
  ok (preview_room now rp r ∷ later)

-- `refundableMinor += amount`.
unfoldable pub sum_refundable : List RoomPreview → ℕ
sum_refundable [] = 0
sum_refundable (r ∷ rs) = r.refundable_minor + sum_refundable rs

unfoldable pub rooms_of : Db → ℕ → List BookingRoom
rooms_of db booking_id = select (λ r. r.booking_id == booking_id) db.booking_rooms

unfoldable pub cancellation_preview : Db → ℕ → ℕ → Result CancellationPreview
cancellation_preview db now id = do
  booking ← or_throw (find (λ b. b.id == id) db.bookings) (not_found "Booking not found")
  rooms ← preview_rooms db now (rooms_of db id)
  ok (record {
    currency = booking.currency;
    total_minor = booking.total_minor;
    refundable_minor = sum_refundable rooms;
    non_refundable_minor = minus booking.total_minor (sum_refundable rooms);
    rooms = rooms;
  })

-- `lookup`.
unfoldable pub lookup : Db → Text → Text → Result Booking
lookup db confirmation_code last_name = do
  booking ←
      or_throw (find (λ b. text_eq b.confirmation_code (to_upper confirmation_code)) db.bookings)
        (not_found "No booking matches those details")
  guest ←
      or_throw (find (λ g. g.id == booking.primary_guest_id) db.guests)
        (internal "Inconsistent query result")
  guard (text_eq (to_lower guest.last_name) (to_lower (trim last_name)))
      (not_found "No booking matches those details")
  ok booking
