-- ===== src/Guests/Visible.antt =====
-- What a member of the staff sees of a guest.
use hotelsb2b.Common.{
  ℕ, ◌≡◌, ◌↔◌, sym, ap, ◌∙◌, subst, true, ◌&&◌, some, List, Memᴰ, Text, find, select, select-mem,
  mem-select, ok, guard-ok_iff, or_throw-eq-ok, ok-injective, ◌==◌,
}
use mathlib.Core.Bool.{and-eq-true_iff}
use hotelsb2b.Schema.{Db, Guest, Booking, StaffRole}
use hotelsb2b.Auth.Subject.{staff_user}
use hotelsb2b.Auth.Scope.{StaffPropertyAccess, Target, booking, may_act}
use hotelsb2b.Auth.Guards.{accessible_properties, in_scope}
use hotelsb2b.Auth.Guards.Roles.{accessible_properties-has_access}
use hotelsb2b.Guests.{GuestNote, Profile, get_profile, profile}

-- The target of a booking, as the guard of scoped routes reads it.
abbrev pub target_of : Booking → Target
target_of b = record { property_id = b.property_id; owner_guest_id = some b.primary_guest_id }

module _ (db : Db) (notes : List GuestNote) (grants : List StaffPropertyAccess) (id user_id : ℕ)
    (email : Text) (role : StaffRole) where
  in_scope-may_act :
      (b : Booking)
      → (in_scope (accessible_properties grants (staff_user user_id email role)) b.property_id
          ≡ true)
        ↔ (may_act grants (staff_user user_id email role) booking (target_of b) ≡ ok tt)
  unfolding may_act in_scope
  in_scope-may_act b =
      let same = accessible_properties-has_access grants user_id email role b.property_id in
      (λ h. (guard-ok_iff _ _).1 (sym same ∙ h), λ h. same ∙ (guard-ok_iff _ _).0 h)

  -- The profile of a guest shows a member of the staff exactly the bookings of the guest on which the
  -- guard of scoped routes would let them act.
  pub profile-may_act :
      (p : Profile) (b : Booking)
      → profile db notes grants id (staff_user user_id email role) ≡ ok p
      → Memᴰ b p.bookings ↔ (
          Memᴰ b db.bookings
          × ((b.primary_guest_id == id) ≡ true)
          × (may_act grants (staff_user user_id email role) booking (target_of b) ≡ ok tt))
  unfolding profile get_profile
  profile-may_act p b h =
      let scope = accessible_properties grants (staff_user user_id email role) in
      let shown = λ (b : Booking). (b.primary_guest_id == id) && in_scope scope b.property_id in
      let (g, _, h₁) = or_throw-eq-ok (find (λ (g : Guest). g.id == id) db.guests) _ _ h in
      let listed : select shown db.bookings ≡ p.bookings =
        ap (λ (x : Profile). x.bookings) (ok-injective h₁) in
      (
        λ m.
            let (m', t) = select-mem shown db.bookings b (subst (Memᴰ b) (sym listed) m) in
            let (own, seen) = (and-eq-true_iff _ _).0 t in (m', own, (in_scope-may_act b).0 seen),
        λ (m, own, act). subst (Memᴰ b) listed (
            mem-select shown db.bookings b m
              ((and-eq-true_iff _ _).1 (own, (in_scope-may_act b).1 act))),
      )
