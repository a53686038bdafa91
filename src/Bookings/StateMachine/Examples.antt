-- ===== src/Bookings/StateMachine/Examples.antt =====
-- Tests of the state machine, and instances of its theorems.
use hotelsb2b.Common.{◌≡◌, refl, ◌↔◌, true, false, ok}
use hotelsb2b.Schema.{pending_payment, confirmed, checked_in, checked_out, cancelled, no_show}
use hotelsb2b.Bookings.StateMachine.{can_transition, assert_transition}
use hotelsb2b.Bookings.StateMachine.Paths.{Step, assert_transition_iff}

can_transition_tests :
    (can_transition pending_payment confirmed ≡ true)
    × (can_transition checked_in cancelled ≡ true)
    × (can_transition checked_out confirmed ≡ false)
    × (can_transition pending_payment checked_in ≡ false)
unfolding can_transition
can_transition_tests = (refl, refl, refl, refl)

assert_transition_iff_example :
    (assert_transition confirmed no_show ≡ ok tt) ↔ Step confirmed no_show
assert_transition_iff_example = assert_transition_iff confirmed no_show
