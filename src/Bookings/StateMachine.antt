-- ===== src/Bookings/StateMachine.antt =====
-- apps/api/src/modules/bookings/booking-state-machine.ts
pub mod Paths
mod Examples
use hotelsb2b.Common.{
  ◌≡◌, Bool, true, false, List, [], ◌∷◌, any, Result, ok, err, HttpError, bad_request,
  if◌then◌else◌,
}
use hotelsb2b.Schema.{
  BookingStatus, pending_payment, confirmed, checked_in, checked_out, cancelled, no_show, status_eq,
}

-- The table `TRANSITIONS`.
unfoldable pub transitions : BookingStatus → List BookingStatus
transitions pending_payment = confirmed ∷ cancelled ∷ []
transitions confirmed = checked_in ∷ cancelled ∷ no_show ∷ []
transitions checked_in = checked_out ∷ cancelled ∷ []
transitions checked_out = []
transitions cancelled = []
transitions no_show = []

unfoldable pub can_transition : BookingStatus → BookingStatus → Bool
unfolding transitions any
can_transition from to = any (status_eq to) (transitions from)

unfoldable pub assert_transition : BookingStatus → BookingStatus → Result (Unit {0})
unfolding can_transition
assert_transition from to =
    if can_transition from to then ok tt else err (bad_request "Illegal booking transition")
