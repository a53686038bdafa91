-- ===== src/Auth/Guards/Sessions.antt =====
-- Signed tokens through the guard that authenticates, and back.
use hotelsb2b.Common.{
  ℕ, ◌+◌, ◌/◌, ◌<◌, ◌≡◌, ◌≢◌, refl, sym, ap, ◌∙◌, Option, some, [], ◌∷◌, ◌++◌, Text, units, ok,
  unauthorized, ◌>>=◌, or_throw, inl, inr, Option-cases,
}
use hotelsb2b.Http.{HttpRequest}
use hotelsb2b.Auth.Subject.{AuthUser, staff_user, guest_user}
use hotelsb2b.Auth.Access.{
  access, booking_action, Jwt, JwtLaws, access_ttl_seconds, Secrets, access_secret, booking_secret,
  payload_of, issue_booking_action_token, verify_booking_action_token, issue_access_token,
  verify_access_token,
}
use hotelsb2b.Auth.Guards.{
  starts_with, extract, user_of_payload, user_of_claims, authenticate_token, authenticate,
}

-- A request that brings the token in its header.
abbrev pub with_bearer : HttpRequest → Text → HttpRequest
with_bearer req token = record req { authorization = some (units "Bearer " ++ token) }

pub extract-with_bearer :
    (req : HttpRequest) (token : Text) → extract (with_bearer req token) ≡ some token
unfolding extract starts_with
extract-with_bearer req token = refl

user_of_claims-payload_of : (u : AuthUser) → user_of_claims (access (payload_of u)) ≡ ok (some u)
unfolding user_of_claims user_of_payload
user_of_claims-payload_of (staff_user id email role) = refl
user_of_claims-payload_of (guest_user id email) = refl

module _ (jwt : Jwt) (laws : JwtLaws jwt) (secrets : Secrets) where
  authenticate_token-nonempty :
      (token : Text) (now : ℕ)
      → token ≢ []
      → authenticate_token jwt secrets (some token) now
        ≡ (verify_access_token jwt secrets token now >>= user_of_claims)
  unfolding authenticate_token
  authenticate_token-nonempty [] now h = absurd (h refl)
  authenticate_token-nonempty (c ∷ t) now h = refl

  -- The token alone, as a cookie brings it.
  pub authenticate_token-issue_access_token :
      (u : AuthUser) (now later : ℕ)
      → later / 1000 < now / 1000 + access_ttl_seconds
      → authenticate_token jwt secrets (some (issue_access_token jwt secrets u now)) later
        ≡ ok (some u)
  unfolding issue_access_token verify_access_token
  authenticate_token-issue_access_token u now later h =
      let c = access (payload_of u) in
      authenticate_token-nonempty _ later (laws.sign_nonempty c _ now _)
      ∙ ap (λ v. or_throw v (unauthorized "Invalid or expired access token") >>= user_of_claims)
          (laws.verify-sign c (access_secret secrets) now access_ttl_seconds later h)
      ∙ user_of_claims-payload_of u

  -- An access token that was issued for a user makes the guard attach just this user to the request,
  -- until the second in which its fifteen minutes are over: the same kind, identifier, e-mail and
  -- role.
  pub authenticate-issue_access_token :
      (u : AuthUser) (req : HttpRequest) (now later : ℕ)
      → later / 1000 < now / 1000 + access_ttl_seconds
      → authenticate jwt secrets (with_bearer req (issue_access_token jwt secrets u now)) later
        ≡ ok (some u)
  unfolding authenticate
  authenticate-issue_access_token u req now later h =
      ap (λ t. authenticate_token jwt secrets t later)
        (extract-with_bearer req (issue_access_token jwt secrets u now))
      ∙ authenticate_token-issue_access_token u now later h

  pub verify_booking_action_token-issue :
      (booking_id now later : ℕ)
      → later / 1000 < now / 1000 + access_ttl_seconds
      → verify_booking_action_token jwt secrets
          (issue_booking_action_token jwt secrets booking_id now)
          later
        ≡ ok booking_id
  unfolding issue_booking_action_token verify_booking_action_token
  verify_booking_action_token-issue booking_id now later h =
      rw
        (
          verify_booking_action_token,
          laws.verify-sign (booking_action booking_id) (booking_secret secrets) now
              access_ttl_seconds later h,
        )
        refl

  -- A booking-action token names its booking until the second in which its fifteen minutes are over;
  -- and a request whose token it is, in the bearer header or in the cookie, is never that of a user
  -- nor let through as anonymous, at any time, also where the configuration gives both kinds of token
  -- the same secret.
  pub authenticate-issue_booking_action_token :
      (booking_id : ℕ) (req : HttpRequest) (now later other : ℕ) (u : Option AuthUser)
      → later / 1000 < now / 1000 + access_ttl_seconds
      → extract req ≡ some (issue_booking_action_token jwt secrets booking_id now)
      → (verify_booking_action_token jwt secrets
            (issue_booking_action_token jwt secrets booking_id now)
            later
          ≡ ok booking_id)
        × (authenticate jwt secrets req other ≢ ok u)
  unfolding authenticate issue_booking_action_token verify_access_token user_of_claims
  authenticate-issue_booking_action_token booking_id req now later other u h brought =
      let c = booking_action booking_id in
      let token = issue_booking_action_token jwt secrets booking_id now in
      (
        verify_booking_action_token-issue booking_id now later h,
        λ e.
            let e' =
              sym (authenticate_token-nonempty token other (laws.sign_nonempty c _ now _))
              ∙ sym (ap (λ t. authenticate_token jwt secrets t other) brought)
              ∙ e in
            elim (Option-cases (jwt.verify token (access_secret secrets) other)) [
              | inl expired ↦ absurd (cc (rw expired at e'))
              | inr (d, read) ↦
                  let same = laws.verify-sign_only c d _ _ now _ other read in
                  absurd (cc (rw (read, same) at e'))
            ],
      )
