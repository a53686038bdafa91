-- ===== src/Auth/Scope/Laws.antt =====
-- Who passes the guard.
use hotelsb2b.Common.{
  ℕ, ◌≡◌, inl, inr, ap, ◌∙◌, true, ◌||◌, none, some, List, Memᴰ, find, find-mem, ok, guard-ok_iff,
  or_throw-eq-ok, ◌==◌, Option-cases,
}
use mathlib.Core.Bool.{and-eq-true_iff}
use hotelsb2b.Schema.{Db, Booking}
use hotelsb2b.Auth.Subject.{AuthUser, staff_user, guest_user}
use hotelsb2b.Auth.Scope.{
  ScopedResource, booking, property, room, rate_plan, booking_room, guest, Target,
  StaffPropertyAccess, resolve, is_booking, is_own, is_admin, has_access, may_act, can_activate,
}

-- A guest may act on a booking of their own; a member of the staff on what belongs to a property
-- that they have access to, or on everything that there is as an administrator.
abbrev pub IsAllowed : Db → List StaffPropertyAccess → AuthUser → ScopedResource → ℕ → Type 0
IsAllowed db access (guest_user g email) resource id =
    (is_booking resource ≡ true)
    × (b : Booking) × Memᴰ b db.bookings
    × ((b.id == id) ≡ true)
    × ((b.primary_guest_id == g) ≡ true)
IsAllowed db access (staff_user u email role) resource id =
    (t : Target) × (resolve db resource id ≡ some t)
    × ((is_admin role || has_access access u t.property_id) ≡ true)

some-injective : {A : Type 0} {a b : A} → some a ≡ some b → a ≡ b
some-injective h = cc

none-some : {A : Type 0} {a : A} → none ≡ some a → ⊥
none-some h = absurd cc

abbrev OwnBooking : Db → ℕ → ℕ → Type 0
OwnBooking db id g =
    (b : Booking) × Memᴰ b db.bookings × ((b.id == id) ≡ true) × ((b.primary_guest_id == g) ≡ true)

own_booking :
    (db : Db) (id g : ℕ) (t : Target)
    → resolve db booking id ≡ some t
    → is_own t.owner_guest_id g ≡ true
    → OwnBooking db id g
unfolding resolve
own_booking db id g t e own = elim (Option-cases (find (λ b. b.id == id) db.bookings)) [
  | inl none_found ↦ absurd (none-some (rw (none_found, resolve) at e))
  | inr (b, found) ↦
      let same = some-injective (rw (found, resolve) at e) in
      let (m, here) = find-mem _ db.bookings b found in
      (b, m, here, ap (λ (t : Target). is_own t.owner_guest_id g) same ∙ own)
]

guest_booking :
    (db : Db) (resource : ScopedResource) (id g : ℕ) (t : Target)
    → is_booking resource ≡ true
    → resolve db resource id ≡ some t
    → is_own t.owner_guest_id g ≡ true
    → OwnBooking db id g
guest_booking db booking id g t h = own_booking db id g t
guest_booking db property id g t h = absurd cc
guest_booking db room id g t h = absurd cc
guest_booking db rate_plan id g t h = absurd cc
guest_booking db booking_room id g t h = absurd cc
guest_booking db guest id g t h = absurd cc

allowed :
    (db : Db) (access : List StaffPropertyAccess) (resource : ScopedResource) (user : AuthUser)
    (id : ℕ) (t : Target)
    → resolve db resource id ≡ some t
    → may_act access user resource t ≡ ok tt
    → IsAllowed db access user resource id
unfolding may_act
allowed db access resource (guest_user g email) id t found e =
    let (is_one, own) =
      (and-eq-true_iff (is_booking resource) (is_own t.owner_guest_id g)).0
        ((guard-ok_iff _ _).0 e) in
    let (b, m, here, mine) = guest_booking db resource id g t is_one found own in
    (is_one, b, m, here, mine)
allowed db access resource (staff_user u email role) id t found e =
    (t, found, (guard-ok_iff _ _).0 e)

-- Whoever passes the guard of a scoped route is allowed to act on the resource that the request
-- names.
pub can_activate_sound :
    (db : Db) (access : List StaffPropertyAccess) (resource : ScopedResource) (user : AuthUser)
    (id : ℕ)
    → can_activate db access (some resource) (some user) (some id) ≡ ok tt
    → IsAllowed db access user resource id
unfolding can_activate
can_activate_sound db access resource user id h =
    let (t, found, passed_on) = or_throw-eq-ok (resolve db resource id) _ _ h in
    allowed db access resource user id t found passed_on
