-- ===== src/Auth/Guards/Order.antt =====
-- A request that is let through has passed each of the guards.
use hotelsb2b.Common.{
  ℕ, ◌≡◌, refl, guard-ok_iff, true, ◌||◌, Option, none, some, List, ◌∷◌, any, Text, ok, ◌>>◌,
  >>=-eq-ok, ok-injective, subst,
}
use hotelsb2b.Schema.{Db, StaffRole}
use hotelsb2b.Http.{HttpRequest}
use hotelsb2b.Auth.Subject.{AuthUser, staff_user, guest_user}
use hotelsb2b.Auth.Access.{Jwt, Secrets}
use hotelsb2b.Auth.Scope.{ScopedResource, StaffPropertyAccess, is_admin, can_activate}
use hotelsb2b.Auth.Scope.Laws.{IsAllowed, can_activate_sound}
use hotelsb2b.Auth.Guards.{Route, authenticate, check_roles, check_csrf, has_role, role_eq, admit}

-- The checks that a request has passed, as those of a user that its tokens name, if any.
pub record IsAdmitted (jwt : Jwt) (secrets : Secrets) (db : Db) (grants : List StaffPropertyAccess)
    (route : Route) (req : HttpRequest) (now : ℕ) (user : Option AuthUser) : Type 0 where
  pub authenticated : authenticate jwt secrets req now ≡ ok user
  pub in_role : check_roles route.roles user ≡ ok tt
  pub activated : can_activate db grants route.scope user route.id ≡ ok tt
  pub from_site : check_csrf req ≡ ok tt

module _ (jwt : Jwt) (secrets : Secrets) (db : Db) (grants : List StaffPropertyAccess) where
  pub admit_sound :
      (route : Route) (req : HttpRequest) (now : ℕ) (user : Option AuthUser)
      → admit jwt secrets db grants route req now ≡ ok user
      → IsAdmitted jwt secrets db grants route req now user
  unfolding admit
  admit_sound route req now user h =
      let (u, known, h₁) = >>=-eq-ok (authenticate jwt secrets req now) _ h in
      let (_, role, h₂) =
        >>=-eq-ok (check_roles route.roles u)
          (λ _. can_activate db grants route.scope u route.id >> (check_csrf req >> ok u)) h₁ in
      let (_, scope, h₃) =
        >>=-eq-ok (can_activate db grants route.scope u route.id) (λ _. check_csrf req >> ok u)
          h₂ in
      let (_, site, h₄) = >>=-eq-ok (check_csrf req) (λ _. ok u) h₃ in
      subst (IsAdmitted jwt secrets db grants route req now) (ok-injective h₄)
        (record { authenticated = known; in_role = role; activated = scope; from_site = site })

  -- On a scoped route, the request has a user and an identifier, and the user may act on it.
  pub can_activate-IsAllowed :
      (resource : ScopedResource) (user : Option AuthUser) (id : Option ℕ)
      → can_activate db grants (some resource) user id ≡ ok tt
      → (u : AuthUser) × (i : ℕ) × (user ≡ some u)
        × (id ≡ some i)
        × IsAllowed db grants u resource i
  unfolding can_activate
  can_activate-IsAllowed resource none id h = absurd cc
  can_activate-IsAllowed resource (some u) none h = absurd cc
  can_activate-IsAllowed resource (some u) (some i) h =
      (u, i, refl, refl, can_activate_sound db grants resource u i h)

-- A route with roles lets in the staff of these roles, and administrators.
abbrev pub HasRole : List StaffRole → AuthUser → Type 0
HasRole roles u =
    (id : ℕ) × (email : Text) × (role : StaffRole) × (u ≡ staff_user id email role)
    × ((is_admin role || any (role_eq role) roles) ≡ true)

pub check_roles-HasRole :
    (r : StaffRole) (rs : List StaffRole) (u : AuthUser)
    → check_roles (r ∷ rs) (some u) ≡ ok tt
    → HasRole (r ∷ rs) u
unfolding check_roles has_role
check_roles-HasRole r rs (guest_user id email) h = absurd cc
check_roles-HasRole r rs (staff_user id email role) h =
    (id, email, role, refl, (guard-ok_iff _ _).0 h)
