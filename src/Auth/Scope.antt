-- ===== src/Auth/Scope.antt =====
-- apps/api/src/auth/guards/property-scope.guard.ts. An identifier of the request that is no UUID is
-- `none`.
pub mod Laws
use hotelsb2b.Common.{
  ℕ, Bool, true, false, not, ◌&&◌, ◌||◌, Option, none, some, List, [], ◌∷◌, any, find, Result, ok,
  err, HttpError, or_throw, guard, bad_request, unauthorized, forbidden, not_found, ◌>>=◌, ◌>>◌,
  ◌==◌,
}
use hotelsb2b.Schema.{Db, StaffRole, admin}
use hotelsb2b.Auth.Subject.{AuthUser, staff_user, guest_user}

-- `ScopedResource`.
pub data ScopedResource : Type 0 where
  booking property room rate_plan booking_room guest : ScopedResource

-- What `resolve` yields.
pub record Target : Type 0 where
  pub property_id : ℕ
  pub owner_guest_id : Option ℕ

abbrev pub in_property : ℕ → Target
in_property id = record { property_id = id; owner_guest_id = none }

-- A row of StaffPropertyAccess.
pub record StaffPropertyAccess : Type 0 where
  pub user_id : ℕ
  pub property_id : ℕ

unfoldable pub resolve : Db → ScopedResource → ℕ → Option Target
resolve db property id = elim (find (λ p. p.id == id) db.properties) [
  | none ↦ none
  | some p ↦ some (in_property p.id)
]
resolve db booking id = elim (find (λ b. b.id == id) db.bookings) [
  | none ↦ none
  | some b ↦ some (record { property_id = b.property_id; owner_guest_id = some b.primary_guest_id })
]
resolve db room id = elim (find (λ r. r.id == id) db.rooms) [
  | none ↦ none
  | some r ↦ some (in_property r.property_id)
]
resolve db rate_plan id = elim (find (λ p. p.id == id) db.rate_plans) [
  | none ↦ none
  | some p ↦ some (in_property p.property_id)
]
resolve db booking_room id = elim (find (λ r. r.id == id) db.booking_rooms) [
  | none ↦ none
  | some r ↦ some (in_property r.property_id)
]
resolve db guest id = none

abbrev pub is_booking : ScopedResource → Bool
is_booking booking = true
is_booking _ = false

abbrev pub is_own : Option ℕ → ℕ → Bool
is_own none id = false
is_own (some owner) id = owner == id

abbrev pub is_admin : StaffRole → Bool
is_admin admin = true
is_admin _ = false

unfoldable pub has_access : List StaffPropertyAccess → ℕ → ℕ → Bool
has_access access user_id property_id =
    any (λ a. (a.user_id == user_id) && (a.property_id == property_id)) access

-- The end of `canActivate`, for a resource that has been found.
unfoldable pub may_act :
    List StaffPropertyAccess → AuthUser → ScopedResource → Target → Result (Unit {0})
unfolding has_access
may_act access (guest_user id email) resource target =
    guard (is_booking resource && is_own target.owner_guest_id id) (not_found "not found")
may_act access (staff_user id email role) resource target =
    guard (is_admin role || has_access access id target.property_id)
      (forbidden "Not authorized for this property")

-- `canActivate`, with the metadata of the route, the user and the identifier of the request.
unfoldable pub can_activate :
    Db
    → List StaffPropertyAccess
    → Option ScopedResource
    → Option AuthUser
    → Option ℕ
    → Result (Unit {0})
unfolding resolve may_act
can_activate db access none user id = ok tt
can_activate db access (some resource) user id = do
  u ← or_throw user (unauthorized "Authentication required")
  i ← or_throw id (bad_request "Invalid id")
  target ← or_throw (resolve db resource i) (not_found "not found")
  may_act access u resource target
