-- ===== src/Bookings/Create.antt =====
-- The parts of `create` and `insertWithUniqueCode` of bookings.service.ts.
pub mod Service
pub mod Codes
use hotelsb2b.Common.{
  ℕ, zero, suc, ◌+◌, ◌-◌, ◌^◌, ◌≡◌, Bool, true, false, not, ◌&&◌, ◌||◌, Option, none, some, List,
  [], ◌∷◌, ◌++◌, map, Text, text_eq, any, find, select, length, Result, ok, err, HttpError,
  or_throw, guard, bad_request, not_found, conflict, internal, ◌>>=◌, ◌>>◌, ltb, leb, ◌==◌,
  if◌then◌else◌,
}
use hotelsb2b.Schema.{
  Db, Property, RatePlan, Guest, Booking, BookingRoom, Notification, Channel, pending_payment,
  NotificationType, booking_received, pending,
}
use hotelsb2b.Dates.{to_date, less_than_one_night}
use hotelsb2b.Availability.Pricing.{price_stay}
use hotelsb2b.Availability.Inventory.{reserve_available_room}

-- create-booking.dto.ts.
pub record CreateBookingRoomDto : Type 0 where
  pub room_type_id : ℕ
  pub rate_plan_id : ℕ
  pub adults : ℕ
  pub children : ℕ

pub record PrimaryGuestDto : Type 0 where
  pub first_name : Text
  pub last_name : Text
  pub email : Option Text
  pub phone : Option Text

pub record CreateBookingDto : Type 0 where
  pub property_id : ℕ
  pub check_in : Text
  pub check_out : Text
  pub rooms : List CreateBookingRoomDto
  pub primary_guest : PrimaryGuestDto
  pub special_requests : Option Text

-- An element of `roomInputs`.
pub record RoomInput : Type 0 where
  pub room_type_id : ℕ
  pub rate_plan_id : ℕ
  pub room_id : ℕ
  pub adults : ℕ
  pub children : ℕ
  pub price_minor : ℕ

-- `CONFIRMATION_RETRIES`.
abbrev pub confirmation_retries : ℕ
confirmation_retries = 5

-- An `Int` column takes 32 bits with a sign; the client refuses a larger value.
unfoldable pub fits_int : ℕ → Bool
fits_int n = ltb n (2 ^ 31)

-- `dto.rooms.reduce((s, r) => s + r.adults, 0)`.
unfoldable pub total : (CreateBookingRoomDto → ℕ) → List CreateBookingRoomDto → ℕ
total f [] = 0
total f (r ∷ rs) = f r + total f rs

-- The rate plans that `findMany` loads, and the map by id. Ids are unique, so a lookup in the map
-- is a lookup in the rows.
unfoldable pub loaded_plan : Db → CreateBookingDto → ℕ → Option RatePlan
loaded_plan db dto id =
    find (λ p. ((p.id == id) && (p.property_id == dto.property_id)) && p.active) db.rate_plans

-- The loop that checks each room's plan.
unfoldable pub check_plans :
    Db → CreateBookingDto → Property → List CreateBookingRoomDto → Result (Unit {0})
check_plans db dto property [] = ok tt
check_plans db dto property (room ∷ rooms) =
    let later = check_plans db dto property rooms in
    do
      rp ←
          or_throw (loaded_plan db dto room.rate_plan_id)
            (bad_request "Unknown or inactive rate plan")
      guard (rp.room_type_id == room.room_type_id)
          (bad_request "Rate plan does not belong to the requested room type")
      guard (text_eq rp.currency property.currency)
          (bad_request "All rate plans must match the property currency")
      later

-- The requester's own guest row, when the requester is a guest of the database.
unfoldable pub authed_guest : Db → Option ℕ → Option Guest
authed_guest db none = none
authed_guest db (some id) = find (λ g. g.id == id) db.guests

unfoldable pub new_guest : Db → PrimaryGuestDto → Guest
new_guest db p = record {
  id = db.next_id;
  first_name = p.first_name;
  last_name = p.last_name;
  email = p.email;
  phone = p.phone;
  is_account = false;
  password_hash = none;
}

-- The guest of the booking, and the database with it.
unfoldable pub resolve_guest : Db → PrimaryGuestDto → Option ℕ → Guest × Db
resolve_guest db p actor = elim (authed_guest db actor) [
  | some g ↦ (g, db)
  | none ↦
      (new_guest db p, record db { guests = new_guest db p ∷ db.guests; next_id = suc db.next_id })
]

-- The attempts of `insertWithUniqueCode`: `codes` gives the code that each attempt draws. A code in
-- use is an error P2002, which is retried; where `aborts` holds, the database refuses every later
-- statement of a transaction in which a statement has failed, with another error, which is thrown.
unfoldable pub insert_attempts : Bool → (ℕ → Text) → List Booking → ℕ → ℕ → Bool → Result Text
insert_attempts aborts codes bookings zero attempt aborted =
    err (internal "Could not allocate a unique confirmation code")
insert_attempts aborts codes bookings (suc left) attempt aborted =
    let retry =
      if ltb attempt (confirmation_retries - 1)
      then insert_attempts aborts codes bookings left (attempt + 1) aborts
      else err (internal "Unique constraint failed") in
    if aborted
    then err (internal "Current transaction is aborted")
    else if any (λ b. text_eq b.confirmation_code (codes attempt)) bookings
    then retry
    else ok (codes attempt)

-- `insertWithUniqueCode`: the code of the row that is written.
unfoldable pub insert_with_unique_code : Bool → (ℕ → Text) → List Booking → Result Text
unfolding insert_attempts
insert_with_unique_code aborts codes bookings =
    insert_attempts aborts codes bookings confirmation_retries 0 false

-- The row of one of the `roomInputs`.
abbrev pub room_row : ℕ → ℕ → ℕ → ℕ → ℕ → Text → RoomInput → BookingRoom
room_row id booking_id property_id check_in check_out currency r = record {
  id = id;
  booking_id = booking_id;
  property_id = property_id;
  room_type_id = r.room_type_id;
  rate_plan_id = r.rate_plan_id;
  room_id = some r.room_id;
  check_in = check_in;
  check_out = check_out;
  adults = r.adults;
  children = r.children;
  price_minor = r.price_minor;
  currency = currency;
}

-- `rooms: { createMany: { data: roomInputs } }`: the rows, with ids drawn from `id` on.
unfoldable pub room_rows : ℕ → ℕ → ℕ → ℕ → ℕ → Text → List RoomInput → List BookingRoom
room_rows id booking_id property_id check_in check_out currency [] = []
room_rows id booking_id property_id check_in check_out currency (r ∷ rs) =
    room_row id booking_id property_id check_in check_out currency r
    ∷ room_rows (suc id) booking_id property_id check_in check_out currency rs

module _ (local_time : ℕ → ℕ) (precedes : Text → Text → Bool) (locked : List ℕ) where
  -- The loop that reserves and prices each room. It reads the database and writes nothing.
  unfoldable pub reserve_rooms :
      Db → ℕ → ℕ → ℕ → ℕ → List CreateBookingRoomDto → Result (List RoomInput × ℕ)
  reserve_rooms db property_id check_in check_out subtotal [] = ok ([], subtotal)
  reserve_rooms db property_id check_in check_out subtotal (room ∷ rooms) = do
    room_id ←
        reserve_available_room precedes locked db property_id room.room_type_id check_in check_out
    price ← price_stay local_time db room.rate_plan_id check_in check_out
    later ← reserve_rooms db property_id check_in check_out (subtotal + price) rooms
    ok (
      record {
        room_type_id = room.room_type_id;
        rate_plan_id = room.rate_plan_id;
        room_id = room_id;
        adults = room.adults;
        children = room.children;
        price_minor = price;
      }
          ∷ later.0,
      later.1,
    )
