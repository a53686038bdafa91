-- ===== src/Auth/Service.antt =====
-- apps/api/src/auth/auth.service.ts. A call reads the clock once. What randomBytes, randomUUID and
-- the code generator draw are parameters of the call (`Draws`).
pub mod Accounts
pub mod Sessions
pub mod Login
pub mod Brute
pub mod Refresh
pub mod Register
use hotelsb2b.Common.{
  ℕ, suc, Bool, true, false, not, ◌&&◌, Option, none, some, List, [], ◌∷◌, ◌++◌, Text, text_eq,
  units, to_lower, find, update_where, Result, ok, err, HttpError, or_throw, guard, conflict,
  unauthorized, internal, ◌>>=◌, ◌>>◌, ◌==◌, if◌then◌else◌,
}
use hotelsb2b.Schema.{Db, Guest, web}
use hotelsb2b.Redis.{Redis}
use hotelsb2b.Audit.{AuditLog}
use hotelsb2b.Auth.Subject.{AuthUser, staff_user, guest_user, User}
use hotelsb2b.Auth.Tokens.{
  TokenDb, RefreshContext, Subject, staff, guest, Refreshed, issue_refresh_token, rotate,
  revoke_by_raw,
}
use hotelsb2b.Auth.Otp.{
  OtpDb, account_of, issue_login_otp, verify_login_otp, issue_booking_otp, verify_booking_otp,
}
use hotelsb2b.Auth.Lockout.{assert_not_locked, record_failure, clear}
use hotelsb2b.Auth.Passwords.{hash_password, verify_password}
use hotelsb2b.Auth.Access.{Jwt, Secrets, issue_access_token, issue_booking_action_token}

pub record AuthResult : Type 0 where
  pub user : AuthUser
  pub access_token : Text
  pub refresh_token : Text

-- The libraries and the configuration: SHA-256, scrypt, JWT and its secrets, `NODE_ENV`.
pub record Env : Type 0 where
  pub sha256 : Text → Text
  pub scrypt : Text → List ℕ → List ℕ
  pub jwt : Jwt
  pub secrets : Secrets
  pub production : Bool

pub record Draws : Type 0 where
  pub refresh : Text
  pub family : ℕ
  pub salt : List ℕ
  pub code : Text

-- What the service acts on: the store of Redis, and the tables.
pub record AuthState (S : Type 0) : Type 0 where
  pub store : S
  pub db : Db
  pub users : List User
  pub codes : OtpDb
  pub tokens : TokenDb
  pub log : List AuditLog

-- The identifiers of the lockout.
abbrev pub staff_key : Text → Text
staff_key email = units "staff:" ++ to_lower email

abbrev pub guest_key : Text → Text
guest_key email = units "guest:" ++ to_lower email

abbrev pub otp_key : Text → Text
otp_key email = units "otp-login:" ++ to_lower email

-- `actor.userId ?? actor.guestId ?? 'unknown'`.
abbrev pub first_of : Option ℕ → Option ℕ → Option ℕ
first_of none b = b
first_of (some a) b = some a

-- The row that `audit` writes.
unfoldable pub auth_row : Text → Option ℕ → Option ℕ → AuditLog
auth_row action user_id guest_id = record {
  property_id = none;
  entity_type = units "Auth";
  entity_id = first_of user_id guest_id;
  action = action;
  channel = web;
  actor_user_id = user_id;
  actor_guest_id = guest_id;
  ip_address = none;
  correlation_id = none;
}

-- `{ kind: user.kind, id: user.id }`.
abbrev pub subject_of_user : AuthUser → Subject
subject_of_user (staff_user id email role) = staff id
subject_of_user (guest_user id email) = guest (some id)

abbrev pub staff_of : User → AuthUser
staff_of u = staff_user u.id u.email u.role

abbrev pub guest_of_row : Guest → AuthUser
guest_of_row g = guest_user g.id g.email

unfoldable pub find_user : List User → Text → Option User
find_user users email = find (λ (u : User). text_eq u.email email) users

-- `loadAuthUser`.
unfoldable pub load_auth_user : List User → Db → Subject → Result AuthUser
load_auth_user users db (staff id) = elim (find (λ (u : User). u.id == id) users) [
  | none ↦ err (unauthorized "Account is inactive")
  | some u ↦ if u.active then ok (staff_of u) else err (unauthorized "Account is inactive")
]
load_auth_user users db (guest none) = err (unauthorized "Account not found")
load_auth_user users db (guest (some id)) = elim (find (λ (g : Guest). g.id == id) db.guests) [
  | none ↦ err (unauthorized "Account not found")
  | some g ↦ ok (guest_of_row g)
]

-- The account that `guestRegister` creates.
unfoldable pub account_row : ℕ → Text → Text → Text → Text → Guest
account_row id email first_name last_name password_hash = record {
  id = id;
  first_name = first_name;
  last_name = last_name;
  email = some email;
  phone = none;
  is_account = true;
  password_hash = some password_hash;
}

module _ (r : Redis) (env : Env) where
  abbrev pub State : Type 0
  State = AuthState r.Store

  unfoldable pub audit : Text → Option ℕ → Option ℕ → State → State
  unfolding auth_row
  audit action user_id guest_id s = record s { log = auth_row action user_id guest_id ∷ s.log }

  -- `user && user.active && verify(password, user.passwordHash)`.
  unfoldable pub passes_staff : Option User → Text → Option User
  passes_staff none password = none
  passes_staff (some u) password =
      if u.active && verify_password env.scrypt password u.password_hash then some u else none

  -- `guest?.passwordHash && verify(password, guest.passwordHash)`.
  unfoldable pub passes_hash : Guest → Option Text → Text → Option Guest
  passes_hash g none password = none
  passes_hash g (some []) password = none
  passes_hash g (some (c ∷ cs)) password =
      if verify_password env.scrypt password (c ∷ cs) then some g else none

  unfoldable pub passes_guest : Option Guest → Text → Option Guest
  unfolding passes_hash
  passes_guest none password = none
  passes_guest (some g) password = passes_hash g g.password_hash password

  -- What a failed login writes.
  unfoldable pub fail_login : Text → ℕ → State → State
  unfolding audit
  fail_login key now s =
      audit (units "login_failure") none none
        (record s { store = record_failure r s.store now key })

  -- `issue`.
  unfoldable pub issue : Draws → AuthUser → RefreshContext → ℕ → State → Result AuthResult × State
  issue draws user ctx now s =
      elim (issue_refresh_token env.sha256 s.tokens draws.refresh now (subject_of_user user) ctx
        draws.family) [
          | none ↦ (err (internal "Unique constraint failed"), s)
          | some tokens ↦ (
            ok (record {
              user = user;
              access_token = issue_access_token env.jwt env.secrets user now;
              refresh_token = draws.refresh;
            }),
            record s { tokens = tokens },
          )
        ]
