-- ===== src/Examples/Safety.antt =====
-- The theorems on the inventory invariant, on a run through the sample hotel: a booking of two
-- rooms, the assignment of another room, a cancellation and a block.
use hotelsb2b.Common.{
  false, ℕ, ◌≡◌, ap, sym, ◌∙◌, ◌==◌, if◌then◌else◌, ◌≢◌, refl, true, none, [], ◌∷◌, Memᴰ, text_eq,
  any, find, select, update_where, ok, arith,
}
use hotelsb2b.Schema.{Db, Room, cancelled, pending_payment}
use hotelsb2b.Dates.{to_date, midnight, less_than_one_night}
use hotelsb2b.RateRules.{rule_applies_on}
use hotelsb2b.Availability.Nights.{nights}
use hotelsb2b.Availability.Pricing.{price_stay, night_price, applies, total_price, sort_by_priority}
use hotelsb2b.Availability.Inventory.{
  is_free, is_locked, first_by_number, reserve_available_room, booking_has, overlapping_booking,
  overlapping_block,
}
use hotelsb2b.Notifications.{create_for_booking}
use hotelsb2b.Bookings.StateMachine.{assert_transition}
use hotelsb2b.Bookings.Assign.{assign_room, clash_booking, set_room}
use hotelsb2b.Bookings.Create.{
  CreateBookingDto, CreateBookingRoomDto, check_plans, loaded_plan, resolve_guest, authed_guest,
  reserve_rooms, insert_with_unique_code, fits_int, total,
}
use hotelsb2b.Bookings.Create.Service.{Created, create_rows, write_booking, booking_row}
use hotelsb2b.Bookings.Transition.{Moved, transition_rows}
use hotelsb2b.Rooms.{BlockRoomDto, block}
use hotelsb2b.Bookings.Safety.{IsSafe}
use hotelsb2b.Bookings.Safety.Placement.{DistinctTypes}
use hotelsb2b.Bookings.Safety.Created.{create_rows-IsSafe}
use hotelsb2b.Bookings.Safety.FirstCode.{create_rows-first_code}
use hotelsb2b.Bookings.Safety.SameType.{same_type_unsafe}
use hotelsb2b.Bookings.Safety.Assignment.{assign_room-IsSafe}
use hotelsb2b.Bookings.Safety.Statuses.{transition_rows-IsSafe}
use hotelsb2b.Bookings.Safety.Blocks.{block-IsSafe}
use hotelsb2b.Examples.{utc, precedes, hotel, request, two_adults, anonymous, codes, january, ok_or}

-- The type of a room, by its id.
abbrev type_of : ℕ → ℕ
type_of id = if id == 23 then 12 else 11

hotel-type_of : (x : Room) → Memᴰ x hotel.rooms → x.room_type_id ≡ type_of x.id
hotel-type_of x (Memᴰ.head e) = rw e refl
hotel-type_of x (Memᴰ.tail (Memᴰ.head e)) = rw e refl
hotel-type_of x (Memᴰ.tail (Memᴰ.tail (Memᴰ.head e))) = rw e refl
hotel-type_of x (Memᴰ.tail (Memᴰ.tail (Memᴰ.tail m))) = elim m [ ]

hotel-IsSafe : IsSafe hotel
hotel-IsSafe = record {
  apart = λ a b m. elim m [ ];
  unblocked = λ a k m. elim m [ ];
  rows_by_id = λ a b m. elim m [ ];
  rooms_by_id = λ x y mx my e. hotel-type_of x mx ∙ ap type_of e ∙ sym (hotel-type_of y my);
  rows_fresh = λ a m. elim m [ ];
}

abbrev now : ℕ
now = 63_934_000_000_000

abbrev nothing : Created
nothing = record {
  booking = record {
    id = 0;
    confirmation_code = [];
    property_id = 0;
    status = pending_payment;
    channel = anonymous.channel;
    primary_guest_id = 0;
    created_by_user_id = none;
    check_in = 0;
    check_out = 0;
    adults = 0;
    children = 0;
    rooms_count = 0;
    currency = [];
    subtotal_minor = 0;
    total_minor = 0;
    special_requests = none;
    cancelled_at = none;
    cancel_reason = none;
  };
  notification_id = 0;
  db = hotel;
}

abbrev booked : CreateBookingDto → Created
booked dto = ok_or (create_rows utc precedes true [] codes now hotel dto anonymous) nothing

-- A double and a suite.
abbrev mixed : CreateBookingDto
mixed = request (two_adults 11 31 ∷ two_adults 12 32 ∷ [])

create_rows-mixed :
    create_rows utc precedes true [] codes now hotel mixed anonymous ≡ ok (booked mixed)
unfolding create_rows less_than_one_night to_date find check_plans loaded_plan text_eq reserve_rooms
    reserve_available_room first_by_number select resolve_guest is_free any is_locked price_stay
    fits_int total nights applies night_price sort_by_priority total_price rule_applies_on
    booking_row write_booking insert_with_unique_code create_for_booking authed_guest
create_rows-mixed = refl

mixed-DistinctTypes : DistinctTypes mixed.rooms
mixed-DistinctTypes = (other, (λ q m. elim m [ ], tt))
  where
    other : (q : CreateBookingRoomDto) → Memᴰ q (two_adults 12 32 ∷ []) → 11 ≢ q.room_type_id
    other q (Memᴰ.head e) = rw e (omega arith)
    other q (Memᴰ.tail m) = elim m [ ]

create_rows-IsSafe_example : IsSafe (booked mixed).db
create_rows-IsSafe_example =
    create_rows-IsSafe utc precedes true [] codes now hotel mixed anonymous (booked mixed)
      hotel-IsSafe mixed-DistinctTypes create_rows-mixed

create_rows-first_code_example :
    ((booked mixed).booking.confirmation_code ≡ codes 0)
    × (any (λ b. text_eq b.confirmation_code (codes 0)) hotel.bookings ≡ false)
create_rows-first_code_example =
    create_rows-first_code utc precedes [] codes now hotel mixed anonymous (booked mixed)
      create_rows-mixed

-- Two doubles.
abbrev twin : CreateBookingDto
twin = request (two_adults 11 31 ∷ two_adults 11 31 ∷ [])

create_rows-twin :
    create_rows utc precedes true [] codes now hotel twin anonymous ≡ ok (booked twin)
unfolding create_rows less_than_one_night to_date find check_plans loaded_plan text_eq reserve_rooms
    reserve_available_room first_by_number select resolve_guest is_free any is_locked price_stay
    fits_int total nights applies night_price sort_by_priority total_price rule_applies_on
    booking_row write_booking insert_with_unique_code create_for_booking authed_guest
create_rows-twin = refl

same_type_unsafe_example : ¬ IsSafe (booked twin).db
same_type_unsafe_example =
    same_type_unsafe utc precedes true [] codes now hotel twin anonymous (booked twin)
      (two_adults 11 31) (two_adults 11 31) [] refl refl create_rows-twin

-- The double moves to the other room of its type.
abbrev moved : Db
moved = ok_or (assign_room (booked mixed).db 102 22) hotel

assigned : assign_room (booked mixed).db 102 22 ≡ ok moved
unfolding create_rows less_than_one_night to_date find check_plans loaded_plan text_eq reserve_rooms
    reserve_available_room first_by_number select resolve_guest is_free any is_locked price_stay
    fits_int total nights applies night_price sort_by_priority total_price rule_applies_on
    booking_row write_booking insert_with_unique_code create_for_booking authed_guest booking_has
    overlapping_block overlapping_booking assign_room clash_booking set_room update_where
assigned = refl

assign_room-IsSafe_example : IsSafe moved
assign_room-IsSafe_example =
    assign_room-IsSafe (booked mixed).db 102 22 moved create_rows-IsSafe_example assigned

-- The booking is cancelled.
abbrev unchanged : Moved
unchanged = record { booking = nothing.booking; notification_id = none; db = hotel }

abbrev called_off : Moved
called_off = ok_or (transition_rows (booked mixed).db 101 cancelled none now) unchanged

cancelled_ok : transition_rows (booked mixed).db 101 cancelled none now ≡ ok called_off
unfolding create_rows less_than_one_night to_date find check_plans loaded_plan text_eq reserve_rooms
    reserve_available_room first_by_number select resolve_guest is_free any is_locked price_stay
    fits_int total nights applies night_price sort_by_priority total_price rule_applies_on
    booking_row write_booking insert_with_unique_code create_for_booking authed_guest
    transition_rows update_where assert_transition
cancelled_ok = refl

transition_rows-IsSafe_example : IsSafe called_off.db
transition_rows-IsSafe_example =
    transition_rows-IsSafe (booked mixed).db 101 cancelled none now called_off
      create_rows-IsSafe_example cancelled_ok

-- A room of the empty hotel is blocked for two nights.
abbrev repairs : BlockRoomDto
repairs = record { start_date = january 11; end_date = january 13; reason = []; user_id = none }

abbrev after_block : Db × ℕ
after_block = ok_or (block hotel 21 repairs) (hotel, 0)

block_ok : block hotel 21 repairs ≡ ok after_block
unfolding block find any midnight
block_ok = refl

block-IsSafe_example : IsSafe after_block.0
block-IsSafe_example = block-IsSafe hotel 21 repairs after_block hotel-IsSafe block_ok
