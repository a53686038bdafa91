-- ===== src/Auth/Service/Login.antt =====
-- Who gets in by a password, and what a refusal leaves behind.
use hotelsb2b.Common.{
  ℕ, ◌≡◌, sym, ap, subst, true, ◌&&◌, Option, none, some, Memᴰ, Text, text_eq_sound, to_lower,
  find-mem, ok, Bool-cases, Option-cases, Result-cases, inl, inr, ok-injective,
}
use mathlib.Core.Bool.{and-eq-true_iff}
use hotelsb2b.Redis.{Redis}
use hotelsb2b.Auth.Subject.{AuthUser, User}
use hotelsb2b.Auth.Tokens.{RefreshContext, issue_refresh_token}
use hotelsb2b.Auth.Lockout.{assert_not_locked}
use hotelsb2b.Auth.Passwords.{verify_password}
use hotelsb2b.Auth.Access.{issue_access_token}
use hotelsb2b.Auth.Service.{
  AuthResult, Env, Draws, State, staff_key, staff_of, find_user, passes_staff, issue,
  subject_of_user,
}
use hotelsb2b.Auth.Service.Accounts.{accept_staff, staff_login}

module _ (r : Redis) (env : Env) where
  -- The member of the staff whom a login lets in.
  pub record IsStaffLogin (email password : Text) (now : ℕ) (s : State r env) (a : AuthResult)
      : Type 0 where
    pub user : User
    pub listed : Memᴰ user s.users
    pub named : user.email ≡ to_lower email
    pub active : user.active ≡ true
    pub verified : verify_password env.scrypt password user.password_hash ≡ true
    pub open_now : assert_not_locked r s.store now (staff_key email) ≡ ok tt
    pub shown : a.user ≡ staff_of user
    pub signed : a.access_token ≡ issue_access_token env.jwt env.secrets (staff_of user) now

  pub issue-user :
      (draws : Draws) (user : AuthUser) (ctx : RefreshContext) (now : ℕ) (s : State r env)
      (a : AuthResult)
      → (issue r env draws user ctx now s).0 ≡ ok a
      → (a.user ≡ user) × (a.access_token ≡ issue_access_token env.jwt env.secrets user now)
  unfolding issue
  issue-user draws user ctx now s a h =
      elim (Option-cases (
        issue_refresh_token env.sha256 s.tokens draws.refresh now (subject_of_user user) ctx
          draws.family)) [
            | inl e ↦ absurd (cc (rw (e, issue) at h))
            | inr (tokens, e) ↦
                let same = ok-injective (rw (e, issue) at h) in
                (
                  ap (λ (x : AuthResult). x.user) (sym same),
                  ap (λ (x : AuthResult). x.access_token) (sym same),
                )
          ]

  passes_staff_sound :
      (o : Option User) (password : Text) (u : User)
      → passes_staff r env o password ≡ some u
      → (o ≡ some u)
        × (u.active ≡ true)
        × (verify_password env.scrypt password u.password_hash ≡ true)
  unfolding passes_staff
  passes_staff_sound none password u h = absurd cc
  passes_staff_sound (some v) password u h =
      elim (Bool-cases (v.active && verify_password env.scrypt password v.password_hash)) [
        | inl e ↦
            let same : some v ≡ some u = rw e at h in
            let eq : v ≡ u = cc in
            let (on, good) = (and-eq-true_iff _ _).0 e in
            (
              same,
              subst (λ (w : User). w.active ≡ true) eq on,
              subst (λ (w : User). verify_password env.scrypt password w.password_hash ≡ true) eq
                  good,
            )
        | inr e ↦ absurd (cc (rw e at h))
      ]

  -- A staff login succeeds only for an active member of the staff whose e-mail address is the given
  -- one in lower case and whose password it is, and only while the address is not locked out; and
  -- the access token is signed for just that user.
  pub staff_login_sound :
      (draws : Draws) (email password : Text) (ctx : RefreshContext) (now : ℕ) (s : State r env)
      (a : AuthResult)
      → (staff_login r env draws email password ctx now s).0 ≡ ok a
      → IsStaffLogin email password now s a
  unfolding staff_login accept_staff find_user
  staff_login_sound draws email password ctx now s a h =
      elim (Result-cases (assert_not_locked r s.store now (staff_key email))) [
        | inl (e, locked) ↦ absurd (cc (rw (locked, staff_login) at h))
        | inr (_, free) ↦
            elim (Option-cases (passes_staff r env (find_user s.users (to_lower email)) password)) [
              | inl refused ↦ absurd (cc (rw (free, refused, staff_login) at h))
              | inr (u, passes) ↦
                  let (known, active, verified) = passes_staff_sound _ password u passes in
                  let (shown, signed) =
                    issue-user draws (staff_of u) ctx now _ a
                      (rw (free, passes, staff_login) at h) in
                  let (listed, named) = find-mem _ s.users u known in
                  record {
                    user = u;
                    listed = listed;
                    named = text_eq_sound _ _ named;
                    active = active;
                    verified = verified;
                    open_now = free;
                    shown = shown;
                    signed = signed;
                  }
            ]
      ]
