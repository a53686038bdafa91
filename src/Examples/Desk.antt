-- ===== src/Examples/Desk.antt =====
-- The theorems on the routes of bookings, at the small hotel with its clerk.
use hotelsb2b.Common.{
  select, ℕ, ◌≡◌, refl, true, none, some, [], ◌∷◌, units, ok, Result, find, text_eq, any, arith,
}
use hotelsb2b.Schema.{Booking, front_desk, cancelled, checked_in}
use hotelsb2b.Http.{HttpRequest, context_from_request}
use hotelsb2b.Audit.{audit_row, intercept}
use hotelsb2b.Redis.{Redis, set_nx}
use hotelsb2b.Redis.Memory.{memory}
use hotelsb2b.Redis.Memory.Lawful.{memory-Laws}
use hotelsb2b.Auth.Subject.{staff_user}
use hotelsb2b.Auth.Access.{issue_access_token, verify_access_token}
use hotelsb2b.Auth.Scope.{can_activate}
use hotelsb2b.Bookings.Transition.{cancel, transition, transition_rows}
use hotelsb2b.Bookings.StateMachine.{assert_transition}
use hotelsb2b.Bookings.Create.{
  check_plans, loaded_plan, resolve_guest, authed_guest, reserve_rooms, insert_with_unique_code,
  fits_int, total, CreateBookingDto,
}
use hotelsb2b.Auth.Guards.{admit}
use hotelsb2b.Auth.Guards.Order.{HasRole}
use hotelsb2b.Auth.Guards.Sessions.{with_bearer}
use hotelsb2b.Bookings.Controller.{
  BookingsState, Turn, desk_roles, open_route, booking_entity, post_cancel, post_transition,
}
use hotelsb2b.Bookings.Controller.Creation.{post_booking}
use hotelsb2b.Bookings.Controller.Served.{IsTransition}
use hotelsb2b.Bookings.Controller.Accounts.{HeadsTrail, post_cancel_sound, post_transition_sound}
use hotelsb2b.Bookings.Controller.Replays.{post_booking-post_booking}
use hotelsb2b.Dates.{to_date, less_than_one_night}
use hotelsb2b.RateRules.{rule_applies_on}
use hotelsb2b.Availability.Nights.{nights}
use hotelsb2b.Availability.Pricing.{price_stay, night_price, applies, total_price, sort_by_priority}
use hotelsb2b.Availability.Inventory.{is_free, is_locked, first_by_number, reserve_available_room}
use hotelsb2b.Notifications.{create_for_booking}
use hotelsb2b.Bookings.Create.Service.{create_rows, write_booking, booking_row}
use hotelsb2b.Bookings.Create.Service.{create}
use hotelsb2b.Idempotency.{execute}
use hotelsb2b.Examples.{hotel, utc, precedes, codes, ok_or, sample_booking, request, two_adults}
use hotelsb2b.Examples.Signing.{plain_jwt, read_token}
use hotelsb2b.Examples.Accounts.{env, grants, anonymous_request}

-- A request that bears the clerk's token.
abbrev clerk_request : HttpRequest
clerk_request =
    with_bearer anonymous_request
      (issue_access_token plain_jwt env.secrets (staff_user 4 (units "a@h") front_desk) 100)

abbrev turn : ℕ → Turn (Redis.Store memory)
turn now = record {
  now = now;
  done = now;
  queue_accepts = true;
  audit_accepts = true;
  locked = [];
  codes = codes;
  others = λ s. s;
}

abbrev desk : BookingsState (Redis.Store memory)
desk = record {
  world = record {
    db = record hotel { bookings = sample_booking ∷ [] };
    store = λ k. none;
    queue = [];
  };
  log = [];
}

-- What the clerk does to a confirmed booking: a cancellation, or a check-in.
abbrev cancelling : Result Booking × BookingsState (Redis.Store memory)
cancelling =
    post_cancel plain_jwt env.secrets grants memory (some 1) none clerk_request (turn 200) desk

abbrev arriving : Result Booking × BookingsState (Redis.Store memory)
arriving =
    post_transition plain_jwt env.secrets grants memory (some 1) checked_in none clerk_request
      (turn 200) desk

abbrev called_off : Booking
called_off = ok_or cancelling.0 sample_booking

cancel_ok : cancelling.0 ≡ ok called_off
unfolding post_cancel cancel transition admit issue_access_token verify_access_token read_token
    text_eq can_activate find any intercept transition_rows assert_transition
cancel_ok = refl

post_cancel_sound_example :
    (x : IsTransition plain_jwt env.secrets grants memory
      (some 1)
      cancelled
      (units "cancel")
      clerk_request
      200
      desk
      cancelling.1
      called_off)
    × HeadsTrail plain_jwt env.secrets grants memory
        (some 1)
        cancelled
        (units "cancel")
        clerk_request
        200
        desk
        cancelling.1
        called_off
        x
post_cancel_sound_example =
    post_cancel_sound plain_jwt env.secrets grants memory (some 1) none clerk_request (turn 200)
      desk called_off refl cancel_ok

abbrev arrived : Booking
arrived = ok_or arriving.0 sample_booking

transition_ok : arriving.0 ≡ ok arrived
unfolding post_transition transition admit issue_access_token verify_access_token read_token text_eq
    can_activate find any intercept transition_rows assert_transition
transition_ok = refl

post_transition_sound_example :
    (x : IsTransition plain_jwt env.secrets grants memory
      (some 1)
      checked_in
      (units "transition")
      clerk_request
      200
      desk
      arriving.1
      arrived)
    × HasRole desk_roles x.user
    × HeadsTrail plain_jwt env.secrets grants memory
        (some 1)
        checked_in
        (units "transition")
        clerk_request
        200
        desk
        arriving.1
        arrived
        x
post_transition_sound_example =
    post_transition_sound plain_jwt env.secrets grants memory (some 1) checked_in none clerk_request
      (turn 200) desk arrived refl transition_ok

-- A booking over the net, twice with one key.
abbrev stay : CreateBookingDto
stay = request (two_adults 11 31 ∷ [])

abbrev vacant : BookingsState (Redis.Store memory)
vacant = record desk { world = record desk.world { db = hotel } }

abbrev post :
    HttpRequest
    → Turn (Redis.Store memory)
    → BookingsState (Redis.Store memory)
    → Result Booking × BookingsState (Redis.Store memory)
post =
    post_booking plain_jwt env.secrets grants memory utc precedes true (λ dto. dto.check_in) stay
      (some (units "k"))

abbrev booked : Result Booking × BookingsState (Redis.Store memory)
booked = post anonymous_request (turn 200) vacant

abbrev stayed : Booking
stayed = ok_or booked.0 sample_booking

booked_ok : booked.0 ≡ ok stayed
unfolding post_booking admit execute intercept create create_rows less_than_one_night to_date find
    check_plans loaded_plan text_eq reserve_rooms reserve_available_room first_by_number select
    resolve_guest is_free any is_locked price_stay fits_int total nights applies night_price
    sort_by_priority total_price rule_applies_on booking_row write_booking insert_with_unique_code
    create_for_booking authed_guest can_activate set_nx context_from_request
booked_ok = refl

admitted_again :
    admit plain_jwt env.secrets booked.1.world.db grants open_route clerk_request 300
    ≡ ok (some (staff_user 4 (units "a@h") front_desk))
unfolding admit issue_access_token verify_access_token read_token text_eq can_activate
admitted_again = refl

post_booking-post_booking_example : post clerk_request (turn 300) booked.1 ≡ (
  ok stayed,
  record {
    world = booked.1.world;
    log =
        audit_row
          (record { entity_type = units "Booking"; action = units "create" })
          (context_from_request clerk_request (some (staff_user 4 (units "a@h") front_desk)))
          (booking_entity stayed)
        ∷ booked.1.log;
  },
)
post_booking-post_booking_example =
    post_booking-post_booking plain_jwt env.secrets grants memory memory-Laws utc precedes true
      (λ dto. dto.check_in) b'k' [] stay anonymous_request clerk_request (turn 200) (turn 300)
      vacant stayed (some (staff_user 4 (units "a@h") front_desk)) refl refl refl refl (omega arith)
      booked_ok admitted_again
