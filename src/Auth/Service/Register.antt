-- ===== src/Auth/Service/Register.antt =====
-- A registered guest logs in with the password that was registered.
use hotelsb2b.Common.{
  ℕ, suc, ◌≡◌, ◌≢◌, refl, sym, ap, ap₂, ◌∙◌, false, none, some, List, [], ◌∷◌, Text, text_eq,
  text_eq_refl, to_lower, units, find, any, Result, ok, Option-cases, inl, inr,
}
use hotelsb2b.Schema.{Guest}
use hotelsb2b.Redis.{Redis}
use hotelsb2b.Auth.Subject.{AuthUser}
use hotelsb2b.Auth.Tokens.{RefreshContext, issue_refresh_token}
use hotelsb2b.Auth.Access.{issue_access_token}
use hotelsb2b.Auth.Otp.{account_of}
use hotelsb2b.Auth.Lockout.{assert_not_locked, clear}
use hotelsb2b.Auth.Passwords.{hash_password}
use hotelsb2b.Auth.Passwords.Hex.{AreBytes}
use hotelsb2b.Auth.Passwords.Laws.{verify_password-hash_password}
use hotelsb2b.Auth.Service.{
  AuthResult, Env, Draws, State, guest_key, guest_of_row, account_row, passes_hash, passes_guest,
  issue, audit, subject_of_user,
}
use hotelsb2b.Auth.Service.Accounts.{accept_guest, guest_login, guest_register}
use hotelsb2b.Auth.Service.Login.{issue-user}

module _ (r : Redis) (env : Env) where
  abbrev new_account : Draws → Text → Text → Text → Text → State r env → Guest
  new_account draws email password first_name last_name s =
      account_row s.db.next_id (to_lower email) first_name last_name
        (hash_password env.scrypt draws.salt password)

  abbrev with_account : Guest → State r env → State r env
  with_account g s =
      audit r env (units "guest_register") none (some g.id)
        (record s { db = record s.db { next_id = suc s.db.next_id; guests = g ∷ s.db.guests } })

  issue-db :
      (draws : Draws) (user : AuthUser) (ctx : RefreshContext) (now : ℕ) (s : State r env)
      → (issue r env draws user ctx now s).1.db ≡ s.db
  unfolding issue
  issue-db draws user ctx now s =
      elim (Option-cases (
        issue_refresh_token env.sha256 s.tokens draws.refresh now (subject_of_user user) ctx
          draws.family)) [ inl e ↦ rw (e, issue) refl | inr (tokens, e) ↦ rw (e, issue) refl ]

  issue-fresh :
      (draws : Draws) (user : AuthUser) (ctx : RefreshContext) (now : ℕ) (s : State r env)
      → any (λ t. text_eq t.token_hash (env.sha256 draws.refresh)) s.tokens.tokens ≡ false
      → (a : AuthResult) × ((issue r env draws user ctx now s).0 ≡ ok a) × (a.user ≡ user)
  unfolding issue issue_refresh_token
  issue-fresh draws user ctx now s fresh = (
    record {
      user = user;
      access_token = issue_access_token env.jwt env.secrets user now;
      refresh_token = draws.refresh;
    },
    rw (fresh, issue_refresh_token, issue) refl,
    refl,
  )

  found_account :
      (draws : Draws) (email password first_name last_name : Text) (s : State r env)
      → account_of
          (with_account (new_account draws email password first_name last_name s) s).db
          (to_lower email)
        ≡ some (new_account draws email password first_name last_name s)
  unfolding account_of find audit account_row
  found_account draws email password first_name last_name s =
      rw (text_eq_refl (to_lower email)) refl

  passes_guest-new_account :
      ((p : Text) (salt : List ℕ) → AreBytes (env.scrypt p salt) × (env.scrypt p salt ≢ []))
      → (draws : Draws) (email password first_name last_name : Text) (s : State r env)
      → AreBytes draws.salt
      → draws.salt ≢ []
      → passes_guest r env (some (new_account draws email password first_name last_name s)) password
        ≡ some (new_account draws email password first_name last_name s)
  unfolding passes_guest passes_hash account_row hash_password
  passes_guest-new_account derived draws email password first_name last_name s salt drawn =
      rw
        ((verify_password-hash_password env.scrypt derived draws.salt salt drawn password
          password).0)
        refl

  -- A guest who has registered gets in with the same password, and as the same guest, in whatever
  -- case the address is written: while the address is not locked out and the new refresh token is
  -- not one that the table has. scrypt gives bytes, and the salt is not empty.
  pub guest_login-guest_register :
      ((p : Text) (salt : List ℕ) → AreBytes (env.scrypt p salt) × (env.scrypt p salt ≢ []))
      → (draws draws' : Draws) (email email' password first_name last_name : Text)
        (ctx ctx' : RefreshContext) (now later : ℕ) (s : State r env) (a : AuthResult)
      → AreBytes draws.salt
      → draws.salt ≢ []
      → (guest_register r env draws email password first_name last_name ctx now s).0 ≡ ok a
      → to_lower email' ≡ to_lower email
      → assert_not_locked r
          (guest_register r env draws email password first_name last_name ctx now s).1.store
          later
          (guest_key email')
        ≡ ok tt
      → any
          (λ t. text_eq t.token_hash (env.sha256 draws'.refresh))
          (guest_register r env draws email password first_name last_name ctx now s).1.tokens.tokens
        ≡ false
      → (b : AuthResult) × ((guest_login r env draws' email' password ctx' later
            (guest_register r env draws email password first_name last_name ctx now s).1).0
          ≡ ok b)
        × (b.user ≡ a.user)
  unfolding guest_register guest_login accept_guest audit
  guest_login-guest_register derived draws draws' email email' password first_name last_name ctx
        ctx' now later s a salt drawn registered same free fresh =
      elim (Option-cases (account_of s.db (to_lower email))) [
        | inr (_, taken) ↦ absurd (cc (rw (taken, guest_register) at registered))
        | inl unknown ↦
            let g = new_account draws email password first_name last_name s in
            let s₀ = with_account g s in
            let out : Result AuthResult × State r env =
              issue r env draws (guest_of_row g) ctx now s₀ in
            let whole : guest_register r env draws email password first_name last_name ctx now s
                ≡ out =
              rw (unknown, guest_register) refl in
            let s' = (guest_register r env draws email password first_name last_name ctx now s).1 in
            let known : account_of s'.db (to_lower email') ≡ some g =
              ap₂ account_of
                (ap (λ (x : Result AuthResult × State r env). x.1.db) whole
                  ∙ issue-db draws (guest_of_row g) ctx now s₀)
                same
              ∙ found_account draws email password first_name last_name s in
            let passes =
              ap (λ o. passes_guest r env o password) known
              ∙ passes_guest-new_account derived draws email password first_name last_name s salt
                  drawn in
            let entry : guest_login r env draws' email' password ctx' later s'
                ≡ accept_guest r env draws' g (guest_key email') ctx' later s' =
              rw (free, passes, guest_login) refl in
            let s₁ =
              audit r env (units "guest_login") none (some g.id)
                (record s' { store = clear r s'.store (guest_key email') }) in
            let (b, accepted, shown) = issue-fresh draws' (guest_of_row g) ctx' later s₁ fresh in
            let (registered_as, _) =
              issue-user r env draws (guest_of_row g) ctx now s₀ a
                (ap (λ (x : Result AuthResult × State r env). x.0) (sym whole) ∙ registered) in
            (
              b,
              ap (λ (x : Result AuthResult × State r env). x.0) entry ∙ accepted,
              shown ∙ sym registered_as,
            )
      ]
