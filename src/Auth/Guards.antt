-- ===== src/Auth/Guards.antt =====
-- The global guards that run in the order of apps/api/src/app.module.ts after the rate limit:
-- apps/api/src/auth/guards/auth-context.guard.ts, common/auth/roles.guard.ts, the guard of scoped
-- routes (Scope) and auth/guards/csrf.guard.ts; JwtAuthGuard of auth/decorators.ts and
-- property-access.service.ts.
pub mod Sessions
pub mod Csrf
pub mod Roles
pub mod Order
use hotelsb2b.Common.{
  ℕ, Bool, true, false, not, ◌&&◌, ◌||◌, Option, none, some, List, [], ◌∷◌, map, any, select, Text,
  text_eq, units, Result, ok, err, HttpError, guard, forbidden, unauthorized, ◌>>=◌, ◌>>◌, ◌==◌,
  if◌then◌else◌, drop,
}
use hotelsb2b.Schema.{Db, StaffRole, front_desk, manager, finance, housekeeping, admin}
use hotelsb2b.Http.{HttpRequest, truthy}
use hotelsb2b.Auth.Subject.{
  AuthUser, staff_user, guest_user, AccessTokenPayload, Kind, staff_kind, guest_kind, other_kind,
}
use hotelsb2b.Auth.Access.{Jwt, Secrets, Claims, access, verify_access_token, or_else}
use hotelsb2b.Auth.Scope.{ScopedResource, StaffPropertyAccess, is_admin, can_activate}

-- `header?.startsWith('Bearer ') ?? false`.
unfoldable pub starts_with : Text → Text → Bool
starts_with [] s = true
starts_with (c ∷ p) [] = false
starts_with (c ∷ p) (d ∷ s) = (c == d) && starts_with p s

unfoldable pub uses_bearer : HttpRequest → Bool
unfolding starts_with
uses_bearer req = elim req.authorization [
  | none ↦ false
  | some header ↦ starts_with (units "Bearer ") header
]

-- `extract`.
unfoldable pub extract : HttpRequest → Option Text
unfolding uses_bearer
extract req = elim req.authorization [
  | none ↦ req.cookie_access_token
  | some header ↦
      if starts_with (units "Bearer ") header then some (drop 7 header) else req.cookie_access_token
]

-- `payload.kind === 'staff' ? … : …`, once the checks are passed.
unfoldable pub user_of_payload : Kind → ℕ → Option Text → Result (Option AuthUser)
user_of_payload (staff_kind role) id email = ok (some (staff_user id (or_else email []) role))
user_of_payload guest_kind id email = ok (some (guest_user id email))
user_of_payload other_kind id email = err (unauthorized "Not an access token")

unfoldable pub user_of_claims : Claims → Result (Option AuthUser)
unfolding user_of_payload
user_of_claims (access p) = elim p.sub [
  | some id ↦ user_of_payload p.kind id p.email
  | none ↦ elim p.kind [
    | other_kind ↦ err (unauthorized "Not an access token")
    | _ ↦ err (unauthorized "Malformed access token")
  ]
]
user_of_claims _ = err (unauthorized "Not an access token")

-- `if (!token) return true` and what follows it: the user, if any.
unfoldable pub authenticate_token : Jwt → Secrets → Option Text → ℕ → Result (Option AuthUser)
unfolding user_of_claims
authenticate_token jwt secrets none now = ok none
authenticate_token jwt secrets (some []) now = ok none
authenticate_token jwt secrets (some (c ∷ t)) now =
    verify_access_token jwt secrets (c ∷ t) now >>= user_of_claims

-- `AuthContextGuard.canActivate`: the user that it attaches to the request, if any.
unfoldable pub authenticate : Jwt → Secrets → HttpRequest → ℕ → Result (Option AuthUser)
unfolding extract authenticate_token
authenticate jwt secrets req now = authenticate_token jwt secrets (extract req) now

-- `SAFE_METHODS.has(req.method)`.
unfoldable pub is_safe_method : Text → Bool
is_safe_method m =
    (text_eq m (units "GET") || text_eq m (units "HEAD")) || text_eq m (units "OPTIONS")

-- `!cookieToken || !headerToken || headerToken !== cookieToken`, negated.
unfoldable pub csrf_matches : Option Text → Option Text → Bool
csrf_matches (some (c ∷ cookie)) (some (h ∷ header)) = text_eq (h ∷ header) (c ∷ cookie)
csrf_matches _ _ = false

-- `CsrfGuard.canActivate`.
unfoldable pub check_csrf : HttpRequest → Result (Unit {0})
unfolding is_safe_method uses_bearer csrf_matches
check_csrf req =
    if is_safe_method req.method
    then ok tt
    else if uses_bearer req || not (truthy req.cookie_access_token)
    then ok tt
    else guard (csrf_matches req.cookie_csrf_token req.x_csrf_token)
        (forbidden "CSRF token missing or invalid")

abbrev rank : StaffRole → ℕ
rank front_desk = 0
rank manager = 1
rank finance = 2
rank housekeeping = 3
rank admin = 4

abbrev pub role_eq : StaffRole → StaffRole → Bool
role_eq a b = rank a == rank b

-- The user's `role`, which a guest does not have.
unfoldable pub has_role : List StaffRole → AuthUser → Bool
has_role required (staff_user id email role) = is_admin role || any (role_eq role) required
has_role required (guest_user id email) = false

-- `RolesGuard.canActivate`, for the roles of the route.
unfoldable pub check_roles : List StaffRole → Option AuthUser → Result (Unit {0})
unfolding has_role
check_roles [] user = ok tt
check_roles (r ∷ rs) none = err (forbidden "Authentication required")
check_roles (r ∷ rs) (some user) = guard (has_role (r ∷ rs) user) (forbidden "Insufficient role")

-- `JwtAuthGuard.canActivate`.
unfoldable pub require_user : Option AuthUser → Result AuthUser
require_user none = err (unauthorized "Authentication required")
require_user (some user) = ok user

-- A route: its roles, and its scope with the identifier that the request gives.
pub record Route : Type 0 where
  pub roles : List StaffRole
  pub scope : Option ScopedResource
  pub id : Option ℕ

-- The guards in their order.
unfoldable pub admit :
    Jwt
    → Secrets
    → Db
    → List StaffPropertyAccess
    → Route
    → HttpRequest
    → ℕ
    → Result (Option AuthUser)
unfolding authenticate check_csrf check_roles
admit jwt secrets db grants route req now = do
  user ← authenticate jwt secrets req now
  check_roles route.roles user
  can_activate db grants route.scope user route.id
  check_csrf req
  ok user

-- `PropertyScopeSet`.
pub data PropertyScopeSet : Type 0 where
  all_properties : PropertyScopeSet
  only_properties : List ℕ → PropertyScopeSet

-- `accessibleProperties`.
unfoldable pub accessible_properties : List StaffPropertyAccess → AuthUser → PropertyScopeSet
accessible_properties grants (guest_user id email) = only_properties []
accessible_properties grants (staff_user id email role) =
    if is_admin role
    then all_properties
    else only_properties (
        map (λ (a : StaffPropertyAccess). a.property_id)
          (select (λ (a : StaffPropertyAccess). a.user_id == id) grants))

-- `propertyId: { in: scope }`, or no condition.
unfoldable pub in_scope : PropertyScopeSet → ℕ → Bool
in_scope all_properties id = true
in_scope (only_properties ids) id = any (λ i. i == id) ids
