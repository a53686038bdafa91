-- ===== src/Examples.antt =====
-- A small hotel on which the examples run: two rooms of one type, one of another, a plan for each.
-- The host's clock is UTC and room numbers are in the order of their code units.
mod Inventory
mod Search
mod Codes
mod Safety
mod Reading
mod Tokens
mod Stores
mod Access
mod Signing
mod Accounts
mod Registration
mod Assistant
mod Catalogue
mod Desk
mod Phone
use hotelsb2b.Common.{
  ℕ, ◌+◌, ◌*◌, ◌/◌, ◌%◌, Bool, true, false, Option, none, some, List, [], ◌∷◌, Text, ltb, ◌==◌,
  if◌then◌else◌, Result, ok, err,
}
use hotelsb2b.Schema.{
  Db, Property, RoomType, Room, RatePlan, RateRule, ℤ, pos, clean, refundable, web, Booking,
  confirmed,
}
use hotelsb2b.Dates.{day_ms}
use hotelsb2b.Availability.Search.{AvailabilityQuery}
use hotelsb2b.Http.{ActionContext}
use hotelsb2b.Bookings.Create.{CreateBookingDto, CreateBookingRoomDto, PrimaryGuestDto}

abbrev pub utc : ℕ → ℕ
utc t = t

abbrev pub precedes : Text → Text → Bool
precedes [] [] = false
precedes [] (_ ∷ _) = true
precedes (_ ∷ _) [] = false
precedes (a ∷ s) (b ∷ t) =
    let later = precedes s t in if ltb a b then true else if a == b then later else false

-- `2026-01-dd`.
abbrev pub january : ℕ → Text
january d =
    b'2' ∷ b'0' ∷ b'2' ∷ b'6' ∷ b'-' ∷ b'0' ∷ b'1' ∷ b'-' ∷ (b'0' + d / 10) ∷ (b'0' + d % 10) ∷ []

-- The midnight that begins it.
abbrev pub at_january : ℕ → ℕ
at_january d = (739_981 + d) * day_ms

abbrev usd : Text
usd = b'U' ∷ b'S' ∷ b'D' ∷ []

abbrev pub room : ℕ → ℕ → Text → Room
room id room_type_id number = record {
  id = id;
  property_id = 1;
  room_type_id = room_type_id;
  number = number;
  status = clean;
  active = true;
}

abbrev pub double : RoomType
double = record {
  id = 11;
  property_id = 1;
  name = b'D' ∷ [];
  max_adults = 2;
  max_children = 1;
  active = true;
}

abbrev suite : RoomType
suite = record double { id = 12; name = b'S' ∷ []; max_adults = 4 }

-- From the 10th to the 12th, on every day, a night costs 150.00.
abbrev pub festival : RateRule
festival = record {
  start_date = at_january 10;
  end_date = at_january 12;
  days_of_week = 127;
  price_minor = 15_000;
  priority = pos 1;
}

abbrev pub flexible : RatePlan
flexible = record {
  id = 31;
  property_id = 1;
  room_type_id = 11;
  name = b'F' ∷ [];
  cancellation_policy = refundable;
  refundable_until_hrs = some 48;
  min_stay_nights = 1;
  base_price_minor = 10_000;
  currency = usd;
  active = true;
  rules = festival ∷ [];
}

abbrev pub hotel : Db
hotel = record {
  next_id = 100;
  properties =
      record {
        id = 1;
        slug = b'h' ∷ [];
        name = b'H' ∷ [];
        description = none;
        timezone = b'U' ∷ b'T' ∷ b'C' ∷ [];
        city = none;
        country_code = none;
        currency = usd;
        active = true;
      }
      ∷ [];
  room_types = double ∷ suite ∷ [];
  rooms = room 22 11 (b'2' ∷ []) ∷ room 21 11 (b'1' ∷ []) ∷ room 23 12 (b'3' ∷ []) ∷ [];
  room_blocks = [];
  rate_plans = flexible ∷ record flexible { id = 32; room_type_id = 12; rules = [] } ∷ [];
  guests = [];
  bookings = [];
  booking_rooms = [];
  occupants = [];
  notifications = [];
}

-- A search for the nights of the 11th and the 12th.
abbrev pub query : AvailabilityQuery
query = record {
  property_id = 1;
  check_in = at_january 11;
  check_out = at_january 13;
  adults = 2;
  children = 1;
}

abbrev pub two_adults : ℕ → ℕ → CreateBookingRoomDto
two_adults room_type_id rate_plan_id = record {
  room_type_id = room_type_id;
  rate_plan_id = rate_plan_id;
  adults = 2;
  children = 0;
}

-- A request for the nights of the 11th and the 12th.
abbrev pub request : List CreateBookingRoomDto → CreateBookingDto
request rooms = record {
  property_id = 1;
  check_in = january 11;
  check_out = january 13;
  rooms = rooms;
  primary_guest = record {
    first_name = b'A' ∷ [];
    last_name = b'B' ∷ [];
    email = none;
    phone = none;
  };
  special_requests = none;
}

abbrev pub anonymous : ActionContext
anonymous = record {
  channel = web;
  actor_user_id = none;
  actor_guest_id = none;
  correlation_id = none;
  ip_address = none;
}

-- The code that attempt `k` draws.
abbrev pub codes : ℕ → Text
codes k = (b'A' + k) ∷ []

abbrev pub ok_or : {A : Type 0} → Result A → A → A
ok_or (ok a) other = a
ok_or (err e) other = other

-- A booking that has the code of the first attempt.
abbrev pub sample_booking : Booking
sample_booking = record {
  id = 1;
  confirmation_code = codes 0;
  property_id = 1;
  status = confirmed;
  channel = web;
  primary_guest_id = 1;
  created_by_user_id = none;
  check_in = 0;
  check_out = 86_400_000;
  adults = 1;
  children = 0;
  rooms_count = 1;
  currency = [];
  subtotal_minor = 0;
  total_minor = 0;
  special_requests = none;
  cancelled_at = none;
  cancel_reason = none;
}
