-- ===== src/Auth/Service/Brute.antt =====
-- How many passwords can be tried on an account.
use hotelsb2b.Common.{
  ℕ, ◌+◌, ◌*◌, ◌≤◌, ◌<◌, ◌≡◌, refl, ap, ◌∙◌, none, List, [], ◌∷◌, Text, to_lower, Result, err,
  HttpError, unauthorized, too_many_requests, Option-cases, Result-cases, inl, inr, ltb, Bool-cases,
}
use hotelsb2b.Redis.{Redis, Laws, auth_fail, auth_lock}
use hotelsb2b.Auth.Tokens.{RefreshContext, issue_refresh_token}
use hotelsb2b.Auth.Lockout.{assert_not_locked, record_failure, window_seconds, lockout_seconds}
use hotelsb2b.Auth.Lockout.Failures.{record_failure-assert_not_locked}
use hotelsb2b.Auth.Subject.{AuthUser}
use hotelsb2b.Auth.Service.{
  AuthResult, Env, Draws, State, staff_key, staff_of, find_user, passes_staff, fail_login, issue,
  subject_of_user, audit,
}
use hotelsb2b.Auth.Service.Accounts.{accept_staff, staff_login}

-- An attempt: its time, its password, and what is drawn.
pub record Attempt : Type 0 where
  pub now : ℕ
  pub password : Text
  pub draws : Draws
  pub ctx : RefreshContext

-- `401 Invalid credentials`.
abbrev pub invalid_credentials : HttpError
invalid_credentials = unauthorized "Invalid credentials"

err-injective : {A : Type 0} {e f : HttpError} → ◌≡◌ {A = Result A} (err e) (err f) → e ≡ f
err-injective h = cc

module _ (r : Redis) (env : Env) where
  -- One attempt at an account.
  abbrev pub try_staff : Text → State r env → Attempt → Result AuthResult × State r env
  try_staff email s a = staff_login r env a.draws email a.password a.ctx a.now s

  -- `issue` does not refuse with 401.
  issue-ne-401 :
      (draws : Draws) (user : AuthUser) (ctx : RefreshContext) (now : ℕ) (s : State r env)
      → (issue r env draws user ctx now s).0 ≡ err invalid_credentials
      → ⊥
  unfolding issue
  issue-ne-401 draws user ctx now s h =
      elim (Option-cases (
        issue_refresh_token env.sha256 s.tokens draws.refresh now (subject_of_user user) ctx
          draws.family)) [
            | inl e ↦ absurd (cc (rw (e, issue) at h))
            | inr (tokens, e) ↦ absurd (cc (rw (e, issue) at h))
          ]

  locked-ne-401 :
      (s : r.Store) (now : ℕ) (key : Text)
      → assert_not_locked r s now key ≡ err invalid_credentials
      → ⊥
  unfolding assert_not_locked
  locked-ne-401 s now key h = elim (Bool-cases (ltb 0 (r.ttl s now (auth_lock key)))) [
    | inl e ↦ absurd (cc (rw e at h))
    | inr e ↦ absurd (cc (rw e at h))
  ]

  -- A refusal with 401 was counted.
  try_staff-counted :
      (email : Text) (s : State r env) (a : Attempt)
      → (try_staff email s a).0 ≡ err invalid_credentials
      → (try_staff email s a).1.store ≡ record_failure r s.store a.now (staff_key email)
  unfolding staff_login accept_staff fail_login audit
  try_staff-counted email s a h =
      elim (Result-cases (assert_not_locked r s.store a.now (staff_key email))) [
        | inl (e, locked) ↦
            let same : err e ≡ err invalid_credentials = rw (locked, staff_login) at h in
            absurd
              (locked-ne-401 s.store a.now (staff_key email) (locked ∙ ap err (err-injective same)))
        | inr (_, free) ↦
            elim (Option-cases
              (passes_staff r env (find_user s.users (to_lower email)) a.password)) [
                | inl refused ↦ rw (free, refused, staff_login) refl
                | inr (u, passes) ↦ absurd (
                    issue-ne-401 a.draws (staff_of u) a.ctx a.now _
                      (rw (free, passes, staff_login) at h))
              ]
      ]

  -- The state after some attempts, one after the other.
  abbrev pub after : Text → State r env → List Attempt → State r env
  after email s [] = s
  after email s (a ∷ later) = after email (try_staff email s a).1 later

  -- Each of them was answered with 401.
  abbrev pub AllRefused : Text → State r env → List Attempt → Type 0
  AllRefused email s [] = Unit {0}
  AllRefused email s (a ∷ later) =
      ((try_staff email s a).0 ≡ err invalid_credentials)
      × AllRefused email (try_staff email s a).1 later

  -- Once five passwords have been refused for an address within a quarter of an hour, from a count
  -- that was not running, every further attempt at it is answered with 429 and changes nothing,
  -- whatever the password, for a quarter of an hour up to its last second.
  pub after-try_staff :
      (laws : Laws r) (email : Text) (s : State r env) (a₁ a₂ a₃ a₄ a₅ a : Attempt)
      → r.get s.store a₁.now (auth_fail (staff_key email)) ≡ none
      → a₁.now ≤ a₂.now
      → a₂.now ≤ a₃.now
      → a₃.now ≤ a₄.now
      → a₄.now ≤ a₅.now
      → a₅.now < a₁.now + 1000 * window_seconds
      → a₅.now ≤ a.now
      → a.now + 1000 ≤ a₅.now + 1000 * lockout_seconds
      → AllRefused email s (a₁ ∷ a₂ ∷ a₃ ∷ a₄ ∷ a₅ ∷ [])
      → try_staff email (after email s (a₁ ∷ a₂ ∷ a₃ ∷ a₄ ∷ a₅ ∷ [])) a
        ≡ (err (too_many_requests "Too many attempts"), after email s (a₁ ∷ a₂ ∷ a₃ ∷ a₄ ∷ a₅ ∷ []))
  unfolding staff_login
  after-try_staff laws email s a₁ a₂ a₃ a₄ a₅ a idle o₂ o₃ o₄ o₅ within lo hi
        (q₁, (q₂, (q₃, (q₄, (q₅, _))))) =
      let key = staff_key email in
      let s₁ = (try_staff email s a₁).1 in
      let s₂ = (try_staff email s₁ a₂).1 in
      let s₃ = (try_staff email s₂ a₃).1 in
      let s₄ = (try_staff email s₃ a₄).1 in
      let s₅ = (try_staff email s₄ a₅).1 in
      let fail = λ (t : ℕ) (x : r.Store). record_failure r x t key in
      let c₁ = try_staff-counted email s a₁ q₁ in
      let c₂ = try_staff-counted email s₁ a₂ q₂ ∙ ap (fail a₂.now) c₁ in
      let c₃ = try_staff-counted email s₂ a₃ q₃ ∙ ap (fail a₃.now) c₂ in
      let c₄ = try_staff-counted email s₃ a₄ q₄ ∙ ap (fail a₄.now) c₃ in
      let c₅ = try_staff-counted email s₄ a₅ q₅ ∙ ap (fail a₅.now) c₄ in
      let locked =
        ap (λ x. assert_not_locked r x a.now key) c₅
        ∙ record_failure-assert_not_locked r laws key s.store a₁.now a₂.now a₃.now a₄.now a₅.now
            a.now idle o₂ o₃ o₄ o₅ within lo hi in
      rw (locked, staff_login) refl
