-- ===== src/Examples/Reading.antt =====
-- The theorems on the reads and the transitions of a booking, at a stay of two rooms.
use hotelsb2b.Common.{ℕ, ◌-◌, ◌≡◌, refl, false, none, some, [], ◌∷◌, find, select, ok, ◌==◌}
use hotelsb2b.Schema.{Db, Booking, BookingRoom, Guest, confirmed, cancelled, checked_in, web, pos}
use hotelsb2b.Bookings.StateMachine.{can_transition}
use hotelsb2b.Bookings.Transition.{check_transition, write_transition}
use hotelsb2b.Bookings.Transition.Race.{transition_race}
use hotelsb2b.Bookings.Reading.{
  CancellationPreview, cancellation_preview, rooms_of, preview_rooms, is_refundable, sum_refundable,
  preview_room,
}
use hotelsb2b.Examples.{hotel, at_january, flexible}

abbrev visitor : Guest
visitor = record {
  id = 70;
  first_name = b'A' ∷ [];
  last_name = b'B' ∷ [];
  email = none;
  phone = none;
  is_account = false;
  password_hash = none;
}

abbrev visit : Booking
visit = record {
  id = 80;
  confirmation_code = b'X' ∷ b'2' ∷ [];
  property_id = 1;
  status = confirmed;
  channel = web;
  primary_guest_id = 70;
  created_by_user_id = none;
  check_in = at_january 11;
  check_out = at_january 13;
  adults = 2;
  children = 0;
  rooms_count = 1;
  currency = flexible.currency;
  subtotal_minor = 25_000;
  total_minor = 25_000;
  special_requests = none;
  cancelled_at = none;
  cancel_reason = none;
}

abbrev visit_room : BookingRoom
visit_room = record {
  id = 81;
  booking_id = 80;
  property_id = 1;
  room_type_id = 11;
  rate_plan_id = 31;
  room_id = some 21;
  check_in = at_january 11;
  check_out = at_january 13;
  adults = 2;
  children = 0;
  price_minor = 25_000;
  currency = flexible.currency;
}

abbrev occupied : Db
occupied = record hotel {
  guests = visitor ∷ [];
  bookings = visit ∷ [];
  booking_rooms = visit_room ∷ [];
}

abbrev preview_at : ℕ → ℕ → CancellationPreview
preview_at now amount = record {
  currency = flexible.currency;
  total_minor = 25_000;
  refundable_minor = amount;
  non_refundable_minor = pos (25_000 - amount);
  rooms =
      record {
        booking_room_id = 81;
        policy = flexible.cancellation_policy;
        price_minor = 25_000;
        refundable_minor = amount;
      }
      ∷ [];
}

-- Two days before the stay the whole price is refunded, later nothing.
in_time : cancellation_preview occupied (at_january 9) 80 ≡ ok (preview_at (at_january 9) 25_000)
unfolding cancellation_preview find select preview_rooms is_refundable sum_refundable rooms_of
    preview_room
in_time = refl

too_late : cancellation_preview occupied (at_january 10) 80 ≡ ok (preview_at (at_january 10) 0)
unfolding cancellation_preview find select preview_rooms is_refundable sum_refundable rooms_of
    preview_room
too_late = refl

one_visit : find (λ b. b.id == 80) occupied.bookings ≡ some visit
unfolding find
one_visit = refl

transition_race_example :
    (check_transition occupied 80 cancelled ≡ ok visit)
    × (check_transition occupied 80 checked_in ≡ ok visit)
    × (find
          (λ b. b.id == 80)
          (write_transition
            (write_transition occupied visit none 80 cancelled none 5).db
            visit
            none
            80
            checked_in
            none
            6).db.bookings
        ≡ some (record visit { status = checked_in; cancelled_at = some 5; cancel_reason = none }))
    × (can_transition cancelled checked_in ≡ false)
transition_race_example = transition_race occupied 80 visit none none none 5 6 one_visit refl
