-- ===== src/Auth/Service/Accounts.antt =====
-- auth.service.ts: the logins by password and the registration.
use hotelsb2b.Common.{
  ℕ, suc, none, some, ◌∷◌, Text, units, to_lower, update_where, Result, ok, err, conflict,
  unauthorized, ◌==◌,
}
use hotelsb2b.Schema.{Guest}
use hotelsb2b.Redis.{Redis}
use hotelsb2b.Auth.Subject.{User}
use hotelsb2b.Auth.Tokens.{RefreshContext}
use hotelsb2b.Auth.Otp.{account_of}
use hotelsb2b.Auth.Lockout.{assert_not_locked, clear}
use hotelsb2b.Auth.Passwords.{hash_password}
use hotelsb2b.Auth.Service.{
  AuthResult, Env, Draws, State, staff_key, guest_key, staff_of, guest_of_row, find_user,
  account_row, audit, passes_staff, passes_guest, fail_login, issue,
}

module _ (r : Redis) (env : Env) where
  -- `data: { lastLoginAt: new Date() }`.
  unfoldable pub touch_login : ℕ → ℕ → State r env → State r env
  touch_login id now s = record s {
    users =
        update_where (λ (u : User). u.id == id) (λ u. record u { last_login_at = some now })
          s.users;
  }

  unfoldable pub accept_staff :
      Draws → User → Text → RefreshContext → ℕ → State r env → Result AuthResult × State r env
  unfolding touch_login audit issue
  accept_staff draws u key ctx now s = issue r env draws (staff_of u) ctx now (
      audit r env (units "staff_login") (some u.id) none
        (touch_login u.id now (record s { store = clear r s.store key })))

  unfoldable pub staff_login :
      Draws → Text → Text → RefreshContext → ℕ → State r env → Result AuthResult × State r env
  unfolding find_user passes_staff fail_login accept_staff
  staff_login draws email password ctx now s =
      elim (assert_not_locked r s.store now (staff_key email)) [
        | err e ↦ (err e, s)
        | ok _ ↦ elim (passes_staff r env (find_user s.users (to_lower email)) password) [
          | none ↦
              (err (unauthorized "Invalid credentials"), fail_login r env (staff_key email) now s)
          | some u ↦ accept_staff draws u (staff_key email) ctx now s
        ]
      ]

  unfoldable pub accept_guest :
      Draws → Guest → Text → RefreshContext → ℕ → State r env → Result AuthResult × State r env
  unfolding audit issue
  accept_guest draws g key ctx now s = issue r env draws (guest_of_row g) ctx now (
      audit r env (units "guest_login") none (some g.id) (record s { store = clear r s.store key }))

  unfoldable pub guest_login :
      Draws → Text → Text → RefreshContext → ℕ → State r env → Result AuthResult × State r env
  unfolding passes_guest fail_login accept_guest
  guest_login draws email password ctx now s =
      elim (assert_not_locked r s.store now (guest_key email)) [
        | err e ↦ (err e, s)
        | ok _ ↦ elim (passes_guest r env (account_of s.db (to_lower email)) password) [
          | none ↦
              (err (unauthorized "Invalid credentials"), fail_login r env (guest_key email) now s)
          | some g ↦ accept_guest draws g (guest_key email) ctx now s
        ]
      ]

  -- `guestRegister`. The rows of one request stand behind the check and the insert.
  unfoldable pub guest_register :
      Draws
      → Text
      → Text
      → Text
      → Text
      → RefreshContext
      → ℕ
      → State r env
      → Result AuthResult × State r env
  unfolding account_row audit issue
  guest_register draws email password first_name last_name ctx now s =
      elim (account_of s.db (to_lower email)) [
        | some _ ↦ (err (conflict "An account with this email already exists"), s)
        | none ↦
            let g =
              account_row s.db.next_id (to_lower email) first_name last_name
                (hash_password env.scrypt draws.salt password) in
            issue r env draws (guest_of_row g) ctx now (
              audit r env (units "guest_register") none (some g.id) (record s {
                db = record s.db { next_id = suc s.db.next_id; guests = g ∷ s.db.guests };
              }))
      ]
