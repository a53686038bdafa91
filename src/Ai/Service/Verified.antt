-- ===== src/Ai/Service/Verified.antt =====
-- What a caller must have proved before the assistant changes a booking.
use hotelsb2b.Common.{
  ℕ, ◌+◌, ◌/◌, ◌<◌, ◌≡◌, refl, sym, ap, ◌∙◌, Bool, true, false, Memᴰ, Text, text_eq, find-mem, ok,
  ok-injective, >>=-eq-ok, leb, Bool-cases, Option-cases, inl, inr,
}
use hotelsb2b.Redis.{Redis}
use hotelsb2b.Schemas.{AiOtpVerify, ai_otp_verify_schema, AiBookingAction, ai_booking_action_schema}
use hotelsb2b.Bookings.Transition.{cancel}
use hotelsb2b.Auth.Otp.{OtpCode, OtpDb, action_on, is_open, find_open, consume, verify_booking_otp}
use hotelsb2b.Auth.Access.{
  JwtLaws, access_ttl_seconds, issue_booking_action_token, verify_booking_action_token,
}
use hotelsb2b.Auth.Guards.Sessions.{verify_booking_action_token-issue}
use hotelsb2b.Auth.Service.{Env}
use hotelsb2b.Auth.Service.Sessions.{verify_booking_otp_for}
use hotelsb2b.Ai.Service.{
  AiState, world_of, with_world, verify_otp, booking_of_call, cancel_booking,
}

-- A code that the table holds for the booking, that is unused, not expired and not used up, and
-- that the text is.
pub record IsProof (sha256 : Text → Text) (booking_id : ℕ) (code : Text) (now : ℕ) (db : OtpDb)
    : Type 0 where
  pub row : OtpCode
  pub listed : Memᴰ row db.codes
  pub open_now : is_open (action_on booking_id) now row ≡ true
  pub few : leb row.max_attempts row.attempts ≡ false
  pub matches : text_eq row.code_hash (sha256 code) ≡ true

consume_sound :
    (sha256 : Text → Text) (booking_id : ℕ) (code : Text) (now : ℕ) (db : OtpDb)
    → (consume sha256 (action_on booking_id) code now db).0 ≡ ok tt
    → IsProof sha256 booking_id code now db
unfolding consume find_open
consume_sound sha256 booking_id code now db h =
    elim (Option-cases (find_open (action_on booking_id) now db)) [
      | inl nothing ↦ absurd (cc (rw (nothing, consume) at h))
      | inr (o, found) ↦ elim (Bool-cases (leb o.max_attempts o.attempts)) [
        | inl full ↦ absurd (cc (rw (found, consume, full) at h))
        | inr few ↦ elim (Bool-cases (text_eq o.code_hash (sha256 code))) [
          | inl right ↦
              let (listed, open_now) = find-mem _ db.codes o found in
              record { row = o; listed = listed; open_now = open_now; few = few; matches = right }
          | inr wrong ↦ absurd (cc (rw (found, consume, few, wrong) at h))
        ]
      ]
    ]

module _ (r : Redis) (env : Env) where
  verify_otp_sound :
      (body : AiOtpVerify) (now : ℕ) (s : AiState r.Store) (token : Text)
      → (verify_otp r env body now s).0 ≡ ok token
      → IsProof env.sha256 body.booking_id body.code now s.auth.codes
        × (token ≡ issue_booking_action_token env.jwt env.secrets body.booking_id now)
  unfolding verify_otp verify_booking_otp_for verify_booking_otp
  verify_otp_sound body now s token h = elim (Bool-cases (ai_otp_verify_schema body)) [
    | inr bad ↦ absurd (cc (rw (bad, verify_otp) at h))
    | inl good ↦
        let passed = rw (good, verify_otp) at h in
        let (_, consumed, e) =
          >>=-eq-ok (consume env.sha256 (action_on body.booking_id) body.code now s.auth.codes).0
            (λ _. ok (issue_booking_action_token env.jwt env.secrets body.booking_id now)) passed in
        (
          consume_sound env.sha256 body.booking_id body.code now s.auth.codes consumed,
          sym (ok-injective e),
        )
  ]

  -- A caller who has been given a token for a booking had named a code that was sent for this
  -- booking, unused, not expired and not used up; and until the second in which its fifteen
  -- minutes are over the token cancels just this booking, as the cancellation of the web API does,
  -- whatever the state by then. The body of
  -- the call keeps to the limits of its schema.
  pub cancel_booking-verify_otp :
      (laws : JwtLaws env.jwt) (body : AiOtpVerify) (call : AiBookingAction) (accepted : Bool)
      (now later : ℕ) (s t : AiState r.Store)
      → (verify_otp r env body now s).0 ≡ ok call.verification_token
      → ai_booking_action_schema call ≡ true
      → later / 1000 < now / 1000 + access_ttl_seconds
      → IsProof env.sha256 body.booking_id body.code now s.auth.codes
        × (cancel_booking r env accepted call later t ≡ (
          (cancel r accepted later (world_of t) body.booking_id call.reason).0,
          with_world t (cancel r accepted later (world_of t) body.booking_id call.reason).1,
        ))
  unfolding cancel_booking booking_of_call
  cancel_booking-verify_otp laws body call accepted now later s t h valid early =
      let (proved, token) = verify_otp_sound body now s call.verification_token h in
      let named =
        ap (λ x. verify_booking_action_token env.jwt env.secrets x later) token
        ∙ verify_booking_action_token-issue env.jwt laws env.secrets body.booking_id now later
            early in
      (proved, rw (valid, named, booking_of_call, cancel_booking) refl)
