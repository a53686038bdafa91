-- ===== src/Auth/Service/Refresh.antt =====
-- Who is given a new access token for a refresh token.
use hotelsb2b.Common.{
  ℕ, ◌≡◌, ◌⊎◌, sym, ap, ◌∙◌, subst, true, none, some, List, Memᴰ, Text, find, find-mem, ok,
  >>=-eq-ok, ok-injective, ◌==◌, Option-cases, inl, inr, Bool-cases,
}
use hotelsb2b.Schema.{Db, Guest}
use hotelsb2b.Redis.{Redis}
use hotelsb2b.Auth.Subject.{AuthUser, User}
use hotelsb2b.Auth.Tokens.{RefreshContext, Subject, staff, guest, rotate}
use hotelsb2b.Auth.Access.{issue_access_token}
use hotelsb2b.Auth.Service.{AuthResult, Env, Draws, State, staff_of, guest_of_row, load_auth_user}
use hotelsb2b.Auth.Service.Sessions.{refresh}

-- A user that the tables still hold: an active member of the staff, with the address and the role
-- that they have now, or a guest.
abbrev pub IsCurrent : List User → Db → AuthUser → Type 0
IsCurrent users db u =
    ((row : User) × Memᴰ row users × (row.active ≡ true) × (u ≡ staff_of row))
    ⊎ ((row : Guest) × Memᴰ row db.guests × (u ≡ guest_of_row row))

load_auth_user_sound :
    (users : List User) (db : Db) (subject : Subject) (u : AuthUser)
    → load_auth_user users db subject ≡ ok u
    → IsCurrent users db u
unfolding load_auth_user
load_auth_user_sound users db (staff id) u h =
    elim (Option-cases (find (λ (u : User). u.id == id) users)) [
      | inl e ↦ absurd (cc (rw (e, load_auth_user) at h))
      | inr (row, e) ↦ elim (Bool-cases row.active) [
        | inl on ↦ inl (
          row,
          (find-mem _ users row e).0,
          on,
          sym (ok-injective (rw (e, load_auth_user, on) at h)),
        )
        | inr off ↦ absurd (cc (rw (e, load_auth_user, off) at h))
      ]
    ]
load_auth_user_sound users db (guest none) u h = absurd cc
load_auth_user_sound users db (guest (some id)) u h =
    elim (Option-cases (find (λ (g : Guest). g.id == id) db.guests)) [
      | inl e ↦ absurd (cc (rw (e, load_auth_user) at h))
      | inr (row, e) ↦
          inr
            (row, (find-mem _ db.guests row e).0, sym (ok-injective (rw (e, load_auth_user) at h)))
    ]

module _ (r : Redis) (env : Env) where
  -- A refresh answers only for a user that the tables still hold, who is active if of the staff, and
  -- signs the access token for them as they are now; so an account that has been deactivated gets
  -- no new one.
  pub refresh_sound :
      (draws : Draws) (raw : Text) (ctx : RefreshContext) (now : ℕ) (s : State r env)
      (a : AuthResult)
      → (refresh r env draws raw ctx now s).0 ≡ ok a
      → IsCurrent s.users s.db a.user
        × (a.access_token ≡ issue_access_token env.jwt env.secrets a.user now)
  unfolding refresh
  refresh_sound draws raw ctx now s a h =
      let (rotated, _, h₁) =
        >>=-eq-ok (rotate env.sha256 s.tokens raw draws.refresh now ctx).0 _ h in
      let (user, loaded, h₂) = >>=-eq-ok (load_auth_user s.users s.db rotated.subject) _ h₁ in
      let same = ok-injective h₂ in
      let shown : user ≡ a.user = ap (λ (x : AuthResult). x.user) same in
      (
        subst (IsCurrent s.users s.db) shown
            (load_auth_user_sound s.users s.db rotated.subject user loaded),
        sym (ap (λ (x : AuthResult). x.access_token) same)
            ∙ ap (λ u. issue_access_token env.jwt env.secrets u now) shown,
      )
