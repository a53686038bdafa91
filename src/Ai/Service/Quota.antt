-- ===== src/Ai/Service/Quota.antt =====
-- The requests for a code that are counted for a booking.
use hotelsb2b.Common.{false, zero, suc, ◌+◌, ◌*◌, ◌<◌, ◌∙◌, none, ℕ, ◌≤◌, ◌≡◌, some, arith, ◌==◌}
use hotelsb2b.Redis.{Redis, Laws, ai_otp_req, number}
use hotelsb2b.Ai.Service.{otp_request_window_seconds, count_request}

-- The requests that were counted for a booking: no entry, or a number.
abbrev pub Holds : (r : Redis) → r.Store → ℕ → ℕ → ℕ → Type 0
Holds r s now booking_id zero = r.get s now (ai_otp_req booking_id) ≡ none
Holds r s now booking_id (suc n) = r.get s now (ai_otp_req booking_id) ≡ some (number (suc n))

-- One more has been counted. The first count lives for an hour; a later one goes up by one for as
-- long as the entry was to live, and no longer.
abbrev pub Counted : (r : Redis) → r.Store → r.Store → ℕ → ℕ → ℕ → Type 0
Counted r s s' now booking_id zero =
    (later : ℕ)
    → now ≤ later
    → (later < now + 1000 * otp_request_window_seconds → Holds r s' later booking_id 1)
      × (now + 1000 * otp_request_window_seconds < later → Holds r s' later booking_id 0)
Counted r s s' now booking_id (suc n) =
    (later : ℕ)
    → (Holds r s later booking_id (suc n) → Holds r s' later booking_id (suc (suc n)))
      × (Holds r s later booking_id 0 → Holds r s' later booking_id 0)

pub count_request-Counted :
    (r : Redis) (laws : Laws r) (s : r.Store) (now booking_id n : ℕ)
    → Holds r s now booking_id n
    → ((count_request r booking_id now s).0 ≡ suc n)
      × Counted r s (count_request r booking_id now s).1 now booking_id n
unfolding count_request
count_request-Counted r laws s now booking_id zero h =
    let key = ai_otp_req booking_id in
    let one : (r.incr s now key).0 ≡ 1 = (laws.incr_none s now now key h).0 in
    let counted = (r.incr s now key).1 in
    (
      one,
      λ later order. rw one (
        (λ early.
            laws.get-expire_self counted now later key otp_request_window_seconds order early
            ∙ (laws.incr_none s now now key h).1),
        laws.get-expire_over counted now later key otp_request_window_seconds,
      ),
    )
count_request-Counted r laws s now booking_id (suc n) h =
    let key = ai_otp_req booking_id in
    let (next, keeps, ends) = laws.incr_some s now key (suc n) h in
    let not_first : (suc (suc n) == 1) ≡ false = ground arith in
    (next, λ later. rw (next, not_first) (keeps later, ends later))
