-- ===== src/Auth/Access.antt =====
-- The tokens of apps/api/src/auth/token.service.ts that the JWT library signs. The library is a
-- parameter: it signs an object under a secret for some seconds, and reads one back. Its
-- clock counts whole seconds.
use hotelsb2b.Common.{
  ℕ, ◌*◌, ◌<◌, ◌+◌, ◌/◌, ◌≡◌, ◌≢◌, [], Option, none, some, ◌++◌, Text, units, Result, err,
  unauthorized, or_throw,
}
use hotelsb2b.Auth.Subject.{
  AuthUser, staff_user, guest_user, AccessTokenPayload, staff_kind, guest_kind,
}

-- The objects that are signed: an access token, a booking-action token, or some other object, which
-- has neither a kind nor `typ: 'booking_action'` with a booking.
pub data Claims : Type 0 where
  access : AccessTokenPayload → Claims
  booking_action : ℕ → Claims
  other_claims : Claims

-- `sign` takes the secret, the clock in milliseconds and the time to live in seconds; `verify` the
-- secret and the clock.
pub record Jwt : Type 0 where
  pub sign : Claims → Text → ℕ → ℕ → Text
  pub verify : Text → Text → ℕ → Option Claims

-- What the library documents: a token is read back under its secret until it expires, at the second
-- `exp`, which is that of its signature (`iat`) and its seconds to live; and what is read from a
-- signed token is what was signed.
pub record JwtLaws (jwt : Jwt) : Type 0 where
  pub verify-sign :
      (c : Claims) (secret : Text) (now life later : ℕ)
      → later / 1000 < now / 1000 + life
      → jwt.verify (jwt.sign c secret now life) secret later ≡ some c
  pub verify-sign_only :
      (c d : Claims) (secret other : Text) (now life later : ℕ)
      → jwt.verify (jwt.sign c secret now life) other later ≡ some d
      → d ≡ c
  pub sign_nonempty : (c : Claims) (secret : Text) (now life : ℕ) → jwt.sign c secret now life ≢ []

-- `ACCESS_TTL` and the `expiresIn` of a booking-action token, in seconds.
abbrev pub access_ttl_seconds : ℕ
access_ttl_seconds = 15 * 60

-- The secrets of the configuration.
pub record Secrets : Type 0 where
  pub jwt_access_secret : Option Text
  pub jwt_booking_secret : Option Text

-- `a ?? b`.
abbrev pub or_else {ℓ} : {A : Type ℓ} → Option A → A → A
or_else none b = b
or_else (some a) b = a

unfoldable pub access_secret : Secrets → Text
access_secret s = or_else s.jwt_access_secret (units "dev-access-secret")

unfoldable pub booking_secret : Secrets → Text
unfolding access_secret
booking_secret s = or_else s.jwt_booking_secret (access_secret s ++ units ":booking-action")

-- The object that `issueAccessToken` signs.
abbrev pub payload_of : AuthUser → AccessTokenPayload
payload_of (staff_user id email role) = record {
  sub = some id;
  kind = staff_kind role;
  email = some email;
}
payload_of (guest_user id email) = record { sub = some id; kind = guest_kind; email = email }

abbrev pub booking_of : Claims → Option ℕ
booking_of (booking_action id) = some id
booking_of _ = none

module _ (jwt : Jwt) (secrets : Secrets) where
  unfoldable pub issue_booking_action_token : ℕ → ℕ → Text
  unfolding booking_secret
  issue_booking_action_token booking_id now =
      jwt.sign (booking_action booking_id) (booking_secret secrets) now access_ttl_seconds

  unfoldable pub verify_booking_action_token : Text → ℕ → Result ℕ
  unfolding booking_secret
  verify_booking_action_token token now = elim (jwt.verify token (booking_secret secrets) now) [
    | none ↦ err (unauthorized "Invalid or expired verification token")
    | some c ↦ or_throw (booking_of c) (unauthorized "Invalid or expired verification token")
  ]

  unfoldable pub issue_access_token : AuthUser → ℕ → Text
  unfolding access_secret
  issue_access_token user now =
      jwt.sign (access (payload_of user)) (access_secret secrets) now access_ttl_seconds

  unfoldable pub verify_access_token : Text → ℕ → Result Claims
  unfolding access_secret
  verify_access_token token now =
      or_throw (jwt.verify token (access_secret secrets) now)
        (unauthorized "Invalid or expired access token")
