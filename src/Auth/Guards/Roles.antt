-- ===== src/Auth/Guards/Roles.antt =====
-- Who passes the guard of roles, and that the set of accessible properties agrees with the guard of
-- scoped routes.
use hotelsb2b.Common.{
  ℕ, ◌≡◌, refl, ◌||◌, List, [], ◌∷◌, any, select, map, ◌==◌, Bool-cases, inl, inr,
}
use hotelsb2b.Schema.{StaffRole}
use hotelsb2b.Auth.Subject.{staff_user}
use hotelsb2b.Auth.Scope.{StaffPropertyAccess, is_admin, has_access}
use hotelsb2b.Auth.Guards.{accessible_properties, in_scope}

any-map-select :
    (access : List StaffPropertyAccess) (user_id property_id : ℕ)
    → any
        (λ i. i == property_id)
        (map
          (λ (a : StaffPropertyAccess). a.property_id)
          (select (λ (a : StaffPropertyAccess). a.user_id == user_id) access))
      ≡ has_access access user_id property_id
unfolding has_access any select
any-map-select [] u p = refl
any-map-select (a ∷ grants) u p = elim (Bool-cases (a.user_id == u)) [
  | inl e ↦ rw (e, any-map-select grants u p) refl
  | inr e ↦ rw (e, any-map-select grants u p) refl
]

-- The properties that a member of the staff may see in a list are those on which the guard of
-- scoped routes lets them act.
pub accessible_properties-has_access :
    (access : List StaffPropertyAccess) (id : ℕ) (email : List ℕ) (role : StaffRole)
    (property_id : ℕ)
    → in_scope (accessible_properties access (staff_user id email role)) property_id
      ≡ (is_admin role || has_access access id property_id)
unfolding accessible_properties in_scope
accessible_properties-has_access access id email role p = elim (Bool-cases (is_admin role)) [
  | inl e ↦ rw e refl
  | inr e ↦ rw e (any-map-select access id p)
]
