-- ===== src/RatePlans/Ownership.antt =====
-- Rate plans stay with the property of their room type.
use hotelsb2b.Common.{
  ℕ, ◌≡◌, sym, ap, subst, ◌&&◌, List, Memᴰ, find, find-mem, update_where-mem, ok, or_throw-eq-ok,
  guard-eq-ok, ok-injective, ◌==◌, ==_iff, Bool-cases, inl, inr,
}
use mathlib.Core.Bool.{and-eq-true_iff}
use mathlib.Core.List.Memᴰ
use hotelsb2b.Schema.{Db, RoomType, RatePlan}
use hotelsb2b.Bookings.Create.{fits_int}
use hotelsb2b.RatePlans.{
  CreateRatePlanDto, UpdateRatePlanDto, plan_row, create, fits_given, with_update, update,
}

-- The room type of a plan is one of the plan's property.
abbrev pub HasRoomType : List RoomType → RatePlan → Type 0
HasRoomType types p =
    (t : RoomType) × Memᴰ t types × (t.id ≡ p.room_type_id) × (t.property_id ≡ p.property_id)

abbrev pub PlansAreOwned : Db → Type 0
PlansAreOwned db = (p : RatePlan) → Memᴰ p db.rate_plans → HasRoomType db.room_types p

create-PlansAreOwned :
    (db db' : Db) (dto : CreateRatePlanDto) (property_id : ℕ)
    → PlansAreOwned db
    → create db dto ≡ ok (db', property_id)
    → PlansAreOwned db'
unfolding create plan_row
create-PlansAreOwned db db' dto property_id owned h =
    let (t, found, h₁) =
      or_throw-eq-ok
        (find (λ (t : RoomType). (t.id == dto.room_type_id) && (t.property_id == dto.property_id))
          db.room_types)
        _ _ h in
    let (_, h₂) =
      guard-eq-ok (fits_int dto.min_stay_nights && fits_int dto.base_price_minor) _ _ h₁ in
    let same = ap (λ (x : Db × ℕ). x.0) (ok-injective h₂) in
    let (m, test) = find-mem _ db.room_types t found in
    let (here, there) = (and-eq-true_iff _ _).0 test in
    subst PlansAreOwned same (λ p k. elim (Memᴰ.cases_cons k) [
      | inl e ↦
          subst (HasRoomType db.room_types) (sym e)
            (t, m, (==_iff _ _).0 here, (==_iff _ _).0 there)
      | inr old ↦ owned p old
    ])

update-PlansAreOwned :
    (db db' : Db) (id : ℕ) (dto : UpdateRatePlanDto) (property_id : ℕ)
    → PlansAreOwned db
    → update db id dto ≡ ok (db', property_id)
    → PlansAreOwned db'
unfolding update with_update
update-PlansAreOwned db db' id dto property_id owned h =
    let (_, _, h₁) = or_throw-eq-ok (find (λ (p : RatePlan). p.id == id) db.rate_plans) _ _ h in
    let (_, h₂) =
      guard-eq-ok (fits_given dto.base_price_minor && fits_given dto.min_stay_nights) _ _ h₁ in
    let same = ap (λ (x : Db × ℕ). x.0) (ok-injective h₂) in
    subst PlansAreOwned same (λ p k.
      let (q, old, e) =
        update_where-mem (λ (p : RatePlan). p.id == id) (with_update dto) db.rate_plans p k in
      elim (Bool-cases (q.id == id)) [
        | inl hit ↦ subst (HasRoomType db.room_types) (sym (rw hit at e)) (owned q old)
        | inr miss ↦ subst (HasRoomType db.room_types) (sym (rw miss at e)) (owned q old)
      ])

-- A call of the service that succeeds, on the tables before and after.
pub data Change (db db' : Db) : Type 0 where
  by_create :
      (dto : CreateRatePlanDto) (property_id : ℕ)
      → create db dto ≡ ok (db', property_id)
      → Change db db'
  by_update :
      (id : ℕ) (dto : UpdateRatePlanDto) (property_id : ℕ)
      → update db id dto ≡ ok (db', property_id)
      → Change db db'

-- Some calls, one after the other.
pub data Changes (db : Db) : Db → Type 0 where
  none_yet : Changes db db
  then_one : {db' db'' : Db} → Changes db db' → Change db' db'' → Changes db db''

Change-PlansAreOwned : {db db' : Db} → PlansAreOwned db → Change db db' → PlansAreOwned db'
Change-PlansAreOwned owned (by_create dto property_id h) =
    create-PlansAreOwned _ _ dto property_id owned h
Change-PlansAreOwned owned (by_update id dto property_id h) =
    update-PlansAreOwned _ _ id dto property_id owned h

-- However rate plans are created and updated, every plan keeps a room type of its own property: a
-- creation checks it, and no update can move a plan.
pub Changes-PlansAreOwned : {db db' : Db} → PlansAreOwned db → Changes db db' → PlansAreOwned db'
Changes-PlansAreOwned owned none_yet = owned
Changes-PlansAreOwned owned (then_one before change) =
    Change-PlansAreOwned (Changes-PlansAreOwned owned before) change
