-- ===== src/Bookings/StateMachine/Paths.antt =====
-- What histories of allowed transitions look like.
use hotelsb2b.Common.{ℕ, suc, ◌+◌, ◌≡◌, refl, ◌≢◌, ◌↔◌, ◌<◌, ◌≤◌, ok, arith, subst, ap}
use hotelsb2b.Schema.{
  BookingStatus, pending_payment, confirmed, checked_in, checked_out, cancelled, no_show,
}
use hotelsb2b.Bookings.StateMachine.{assert_transition}

-- The lifecycle of a booking, written as a relation.
pub data Step : BookingStatus → BookingStatus → Type 0 where
  confirm : Step pending_payment confirmed
  abandon : Step pending_payment cancelled
  arrive : Step confirmed checked_in
  withdraw : Step confirmed cancelled
  miss : Step confirmed no_show
  leave : Step checked_in checked_out
  depart_early : Step checked_in cancelled

-- One or more steps.
pub data History (s : BookingStatus) : BookingStatus → Type 0 where
  one : {t : BookingStatus} → Step s t → History s t
  more : {t u : BookingStatus} → History s t → Step t u → History s u

-- How far a status is from the start.
abbrev progress : BookingStatus → ℕ
progress pending_payment = 0
progress confirmed = 1
progress checked_in = 2
progress checked_out = 3
progress cancelled = 3
progress no_show = 3

abbrev pub steps : {s t : BookingStatus} → History s t → ℕ
steps (one e) = 1
steps (more h e) = suc (steps h)

Step-progress : {s t : BookingStatus} → Step s t → progress s < progress t
Step-progress confirm = omega arith
Step-progress abandon = omega arith
Step-progress arrive = omega arith
Step-progress withdraw = omega arith
Step-progress miss = omega arith
Step-progress leave = omega arith
Step-progress depart_early = omega arith

History-progress : {s t : BookingStatus} (h : History s t) → progress s + steps h ≤ progress t
History-progress (one e) = omega (arith, Step-progress e)
History-progress (more h e) = omega (arith, History-progress h, Step-progress e)

steps-pos : {s t : BookingStatus} (h : History s t) → 0 < steps h
steps-pos (one e) = omega arith
steps-pos (more h e) = omega arith

progress-le : (s : BookingStatus) → progress s ≤ 3
progress-le pending_payment = omega arith
progress-le confirmed = omega arith
progress-le checked_in = omega arith
progress-le checked_out = omega arith
progress-le cancelled = omega arith
progress-le no_show = omega arith

sound : (s t : BookingStatus) → assert_transition s t ≡ ok tt → Step s t
unfolding assert_transition
sound pending_payment confirmed h = confirm
sound pending_payment cancelled h = abandon
sound confirmed checked_in h = arrive
sound confirmed cancelled h = withdraw
sound confirmed no_show h = miss
sound checked_in checked_out h = leave
sound checked_in cancelled h = depart_early
sound _ _ h = absurd (cc)

complete : {s t : BookingStatus} → Step s t → assert_transition s t ≡ ok tt
unfolding assert_transition
complete confirm = refl
complete abandon = refl
complete arrive = refl
complete withdraw = refl
complete miss = refl
complete leave = refl
complete depart_early = refl

-- The guard lets a transition pass exactly when it is a step of the lifecycle.
pub assert_transition_iff : (s t : BookingStatus) → (assert_transition s t ≡ ok tt) ↔ Step s t
assert_transition_iff s t = (sound s t, complete)

-- No history returns to a status that it has left, and none has more than three steps.
pub History-acyclic : (s t : BookingStatus) (h : History s t) → (s ≢ t) × (steps h ≤ 3)
History-acyclic s t h = (
  λ e. absurd (omega (arith, History-progress h, steps-pos h, ap progress e)),
  omega (arith, History-progress h, progress-le t),
)

Step-checked_in : {s t : BookingStatus} → Step s t → t ≡ checked_in → s ≡ confirmed
Step-checked_in arrive e = refl
Step-checked_in confirm e = cc
Step-checked_in abandon e = cc
Step-checked_in withdraw e = cc
Step-checked_in miss e = cc
Step-checked_in leave e = cc
Step-checked_in depart_early e = cc

Step-checked_out : {s t : BookingStatus} → Step s t → t ≡ checked_out → s ≡ checked_in
Step-checked_out leave e = refl
Step-checked_out confirm e = cc
Step-checked_out abandon e = cc
Step-checked_out arrive e = cc
Step-checked_out withdraw e = cc
Step-checked_out miss e = cc
Step-checked_out depart_early e = cc

into_checked_out :
    {s t : BookingStatus} → History s t → t ≡ checked_out → s ≢ checked_in → History s checked_in
into_checked_out (one e) p n = absurd (n (Step-checked_out e p))
into_checked_out {s} (more h e) p n = subst (History s) (Step-checked_out e p) h

into_checked_in :
    {s t : BookingStatus} → History s t → t ≡ checked_in → s ≢ confirmed → History s confirmed
into_checked_in (one e) p n = absurd (n (Step-checked_in e p))
into_checked_in {s} (more h e) p n = subst (History s) (Step-checked_in e p) h

-- A history from a new booking to a check-out goes through the confirmation and the check-in.
pub History-checked_out :
    History pending_payment checked_out
    → History pending_payment confirmed × History pending_payment checked_in
History-checked_out h =
    let arrived = into_checked_out h refl (λ e. cc) in
    (into_checked_in arrived refl (λ e. cc), arrived)
