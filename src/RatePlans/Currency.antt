-- ===== src/RatePlans/Currency.antt =====
-- A rate plan in another currency than its property.
use hotelsb2b.Common.{
  ℕ, suc, ◌≡◌, ◌≢◌, refl, sym, ap, ◌∙◌, subst, Bool, true, false, not, ◌&&◌, some, List, [], ◌∷◌,
  Memᴰ, find, mem-select, ok, or_throw-eq-ok, guard-eq-ok, >>=-eq-ok, arith, ◌==◌, ==_refl,
  to_upper, Text, text_eq,
}
use hotelsb2b.Schema.{Db, Property, RoomType, RatePlan}
use hotelsb2b.Dates.{to_date, less_than_one_night}
use hotelsb2b.Http.{ActionContext}
use hotelsb2b.Availability.Search.{active_plans}
use hotelsb2b.Bookings.Create.{
  CreateBookingRoomDto, CreateBookingDto, fits_int, loaded_plan, check_plans,
}
use hotelsb2b.Bookings.Create.Service.{Created, create_rows}
use hotelsb2b.RatePlans.{CreateRatePlanDto, plan_row, create}

some-injective : {A : Type 0} {a b : A} → some a ≡ some b → a ≡ b
some-injective h = cc

-- A request with a plan in another currency does not pass the check.
check_plans-other_currency :
    (db : Db) (bd : CreateBookingDto) (p : Property) (plan : RatePlan)
    (rooms : List CreateBookingRoomDto) (room : CreateBookingRoomDto)
    → Memᴰ room rooms
    → loaded_plan db bd room.rate_plan_id ≡ some plan
    → text_eq plan.currency p.currency ≡ false
    → check_plans db bd p rooms ≢ ok tt
unfolding check_plans
check_plans-other_currency db bd p plan [] room m loaded other h = elim m [ ]
check_plans-other_currency db bd p plan (r ∷ rooms) room (Memᴰ.head e) loaded other h =
    let loaded' =
      subst (λ (x : CreateBookingRoomDto). loaded_plan db bd x.rate_plan_id ≡ some plan) e loaded in
    let (_, h₁) =
      guard-eq-ok (plan.room_type_id == r.room_type_id) _ _ (rw (loaded', check_plans) at h) in
    cc (rw other at h₁)
check_plans-other_currency db bd p plan (r ∷ rooms) room (Memᴰ.tail m) loaded other h =
    let (rp, _, h₁) = or_throw-eq-ok (loaded_plan db bd r.rate_plan_id) _ _ h in
    let (_, h₂) = guard-eq-ok (rp.room_type_id == r.room_type_id) _ _ h₁ in
    let (_, h₃) = guard-eq-ok (text_eq rp.currency p.currency) _ _ h₂ in
    check_plans-other_currency db bd p plan rooms room m loaded other h₃

-- A plan is among those that the search goes through, and a request to book it for its property is refused.
abbrev pub IsUnbookable : Db → RatePlan → Type 0
IsUnbookable db plan =
    Memᴰ plan (active_plans db plan.room_type_id)
    × ((local_time : ℕ → ℕ) (precedes : Text → Text → Bool) (aborts : Bool) (locked : List ℕ)
          (codes : ℕ → Text) (now : ℕ) (bd : CreateBookingDto) (ctx : ActionContext)
          (room : CreateBookingRoomDto) (c : Created)
        → bd.property_id ≡ plan.property_id
        → Memᴰ room bd.rooms
        → room.rate_plan_id ≡ plan.id
        → create_rows local_time precedes aborts locked codes now db bd ctx ≢ ok c)

-- The database with the plan's row.
abbrev pub with_plan : Db → CreateRatePlanDto → Db
with_plan db dto = record db {
  rate_plans = plan_row db.next_id dto ∷ db.rate_plans;
  next_id = suc db.next_id;
}

here :
    (id id' property_id property_id' : ℕ)
    → id' ≡ id
    → property_id' ≡ property_id
    → (((id == id') && (property_id == property_id')) && true) ≡ true
here id id' property_id property_id' e f = ground arith

with_plan-IsUnbookable :
    (db : Db) (dto : CreateRatePlanDto) (p : Property)
    → find (λ (p : Property). p.id == dto.property_id) db.properties ≡ some p
    → text_eq (to_upper dto.currency) p.currency ≡ false
    → IsUnbookable (with_plan db dto) (plan_row db.next_id dto)
unfolding plan_row active_plans loaded_plan create_rows find
with_plan-IsUnbookable db dto p found other = (
  mem-select _ _ (plan_row db.next_id dto) (Memᴰ.head refl) (rw (==_refl dto.room_type_id) refl),
  λ local_time precedes aborts locked codes now bd ctx room c same m chosen h.
      let db' = with_plan db dto in
      let (_, h₁) =
        guard-eq-ok (not (less_than_one_night (to_date bd.check_in) (to_date bd.check_out))) _ _
          h in
      let (property, known, h₂) =
        or_throw-eq-ok (find (λ (p : Property). p.id == bd.property_id) db.properties) _ _ h₁ in
      let (active, h₃) = guard-eq-ok property.active _ _ h₂ in
      let (_, passed, _) = >>=-eq-ok (check_plans db' bd property bd.rooms) _ h₃ in
      let eq : some property ≡ some p =
        sym known ∙ ap (λ i. find (λ (p : Property). p.id == i) db.properties) same ∙ found in
      let loaded : loaded_plan db' bd room.rate_plan_id ≡ some (plan_row db.next_id dto) =
        rw (here db.next_id room.rate_plan_id dto.property_id bd.property_id chosen same) refl in
      check_plans-other_currency db' bd property (plan_row db.next_id dto) bd.rooms room m loaded
        (ap (λ (x : Property). text_eq (to_upper dto.currency) x.currency) (some-injective eq)
          ∙ other)
        passed,
)

-- The creation of a rate plan does not compare its currency with the property's. Where the room type
-- belongs to the property and the numbers fit their columns, a plan in another currency is accepted.
-- In the database that this leaves, the plan is among the active plans that the search goes through
-- for its room type, and every request for its property that names it is refused, whatever else the
-- request asks for.
pub create-IsUnbookable :
    (db : Db) (dto : CreateRatePlanDto) (t : RoomType) (p : Property)
    → find
        (λ (t : RoomType). (t.id == dto.room_type_id) && (t.property_id == dto.property_id))
        db.room_types
      ≡ some t
    → (fits_int dto.min_stay_nights && fits_int dto.base_price_minor) ≡ true
    → find (λ (p : Property). p.id == dto.property_id) db.properties ≡ some p
    → text_eq (to_upper dto.currency) p.currency ≡ false
    → (create db dto ≡ ok (with_plan db dto, dto.property_id))
      × IsUnbookable (with_plan db dto) (plan_row db.next_id dto)
unfolding create
create-IsUnbookable db dto t p of_property fits found other =
    (rw (of_property, fits) refl, with_plan-IsUnbookable db dto p found other)
