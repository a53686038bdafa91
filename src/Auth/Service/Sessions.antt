-- ===== src/Auth/Service/Sessions.antt =====
-- auth.service.ts: the logins by a code, the refresh, the logout and the codes for bookings.
use hotelsb2b.Common.{
  ℕ, Option, none, some, ◌∷◌, Text, units, to_lower, find, Result, ok, err, internal, ◌>>=◌, ◌==◌,
}
use hotelsb2b.Schema.{Guest}
use hotelsb2b.Redis.{Redis}
use hotelsb2b.Auth.Tokens.{RefreshContext, rotate, revoke_by_raw}
use hotelsb2b.Auth.Otp.{issue_login_otp, verify_login_otp, issue_booking_otp, verify_booking_otp}
use hotelsb2b.Auth.Lockout.{assert_not_locked, record_failure, clear}
use hotelsb2b.Auth.Access.{issue_access_token, issue_booking_action_token}
use hotelsb2b.Auth.Service.{
  AuthResult, Env, Draws, State, otp_key, guest_of_row, load_auth_user, audit, issue,
}

module _ (r : Redis) (env : Env) where
  unfoldable pub guest_otp_request :
      Draws → Text → ℕ → State r env → Result (Option Text) × State r env
  guest_otp_request draws email now s = elim (assert_not_locked r s.store now (otp_key email)) [
    | err e ↦ (err e, s)
    | ok _ ↦
        let out =
          issue_login_otp env.sha256 env.production draws.code now s.db (to_lower email) s.codes in
        (ok out.0, record s { codes = out.1 })
  ]

  -- What stands in the `try` block once the code is accepted. Its `return this.issue(…)` is not
  -- awaited there, so the `catch` does not see its errors.
  unfoldable pub otp_accepted :
      Draws → ℕ → Text → RefreshContext → ℕ → State r env → Result AuthResult × State r env
  unfolding audit issue
  otp_accepted draws guest_id key ctx now s =
      let cleared : State r env = record s { store = clear r s.store key } in
      elim (find (λ (g : Guest). g.id == guest_id) s.db.guests) [
        | none ↦ (
          err (internal "No Guest found"),
          record cleared { store = record_failure r cleared.store now key },
        )
        | some g ↦
            issue r env draws (guest_of_row g) ctx now
              (audit r env (units "guest_otp_login") none (some guest_id) cleared)
      ]

  unfoldable pub guest_otp_verify :
      Draws → Text → Text → RefreshContext → ℕ → State r env → Result AuthResult × State r env
  unfolding otp_accepted
  guest_otp_verify draws email code ctx now s =
      elim (assert_not_locked r s.store now (otp_key email)) [
        | err e ↦ (err e, s)
        | ok _ ↦
            let out = verify_login_otp env.sha256 s.db (to_lower email) code now s.codes in
            elim out.0 [
              | err e ↦ (
                err e,
                record s { codes = out.1; store = record_failure r s.store now (otp_key email) },
              )
              | ok guest_id ↦
                  otp_accepted draws guest_id (otp_key email) ctx now (record s { codes = out.1 })
            ]
      ]

  -- The rotation stays although `loadAuthUser` throws.
  unfoldable pub refresh :
      Draws → Text → RefreshContext → ℕ → State r env → Result AuthResult × State r env
  unfolding load_auth_user
  refresh draws raw ctx now s =
      let out = rotate env.sha256 s.tokens raw draws.refresh now ctx in
      (
        (do
          rotated ← out.0
          user ← load_auth_user s.users s.db rotated.subject
          ok (record {
            user = user;
            access_token = issue_access_token env.jwt env.secrets user now;
            refresh_token = rotated.refresh;
          })),
        record s { tokens = out.1 },
      )

  -- `if (rawRefresh)`.
  unfoldable pub logout : Option Text → ℕ → State r env → State r env
  logout (some (c ∷ cs)) now s = record s {
    tokens = revoke_by_raw env.sha256 now (c ∷ cs) s.tokens;
  }
  logout _ now s = s

  unfoldable pub request_booking_otp :
      Draws → ℕ → ℕ → State r env → Result (Option Text) × State r env
  request_booking_otp draws booking_id now s =
      let out =
        issue_booking_otp env.sha256 env.production draws.code now s.db booking_id s.codes in
      (out.0, record s { codes = out.1 })

  unfoldable pub verify_booking_otp_for : ℕ → Text → ℕ → State r env → Result Text × State r env
  verify_booking_otp_for booking_id code now s =
      let out = verify_booking_otp env.sha256 booking_id code now s.codes in
      (
        (out.0 >>= λ _. ok (issue_booking_action_token env.jwt env.secrets booking_id now)),
        record s { codes = out.1 },
      )
