-- ===== src/RatePlans.antt =====
-- apps/api/src/modules/rate-plans/rate-plans.service.ts, with its DTO less the payment type and the
-- breakfast, which no code reads. The bodies have passed the validation of their classes.
pub mod Ownership
pub mod Currency
use hotelsb2b.Common.{
  ℕ, suc, Bool, true, false, not, ◌&&◌, Option, none, some, List, [], ◌∷◌, Text, to_upper, find,
  select, update_where, Result, ok, err, or_throw, guard, bad_request, not_found, internal, ◌>>=◌,
  ◌>>◌, ◌==◌, leb, if◌then◌else◌,
}
use hotelsb2b.Schema.{Db, RoomType, RatePlan, CancellationPolicy}
use hotelsb2b.Redis.{Redis}
use hotelsb2b.Bookings.Create.{fits_int}
use hotelsb2b.Rooms.{with_bump}

pub record CreateRatePlanDto : Type 0 where
  pub property_id : ℕ
  pub room_type_id : ℕ
  pub name : Text
  pub cancellation_policy : CancellationPolicy
  pub min_stay_nights : ℕ
  pub base_price_minor : ℕ
  pub currency : Text

pub record UpdateRatePlanDto : Type 0 where
  pub name : Option Text
  pub base_price_minor : Option ℕ
  pub min_stay_nights : Option ℕ
  pub active : Option Bool

-- Into a list that is sorted by the base price, before the first dearer plan.
unfoldable pub insert_by_price : RatePlan → List RatePlan → List RatePlan
insert_by_price p [] = p ∷ []
insert_by_price p (q ∷ qs) =
    if leb p.base_price_minor q.base_price_minor then p ∷ q ∷ qs else q ∷ insert_by_price p qs

-- `orderBy: { basePriceMinor: 'asc' }`.
unfoldable pub sort_by_price : List RatePlan → List RatePlan
unfolding insert_by_price
sort_by_price [] = []
sort_by_price (p ∷ ps) = insert_by_price p (sort_by_price ps)

-- `listByProperty`, up to the order, with the names of the room types left out.
unfoldable pub plans_of_property : Db → ℕ → List RatePlan
plans_of_property db property_id = select (λ p. p.property_id == property_id) db.rate_plans

-- `findPublishedByRoomType`.
unfoldable pub find_published_by_room_type : Db → ℕ → List RatePlan
unfolding sort_by_price
find_published_by_room_type db room_type_id =
    sort_by_price (select (λ p. (p.room_type_id == room_type_id) && p.active) db.rate_plans)

-- The row that `create` writes, with the defaults of its columns.
unfoldable pub plan_row : ℕ → CreateRatePlanDto → RatePlan
plan_row id dto = record {
  id = id;
  property_id = dto.property_id;
  room_type_id = dto.room_type_id;
  name = dto.name;
  cancellation_policy = dto.cancellation_policy;
  refundable_until_hrs = none;
  min_stay_nights = dto.min_stay_nights;
  base_price_minor = dto.base_price_minor;
  currency = to_upper dto.currency;
  active = true;
  rules = [];
}

-- `create`, with the property whose version is bumped. A number that does not fit its column is
-- refused by the database client.
unfoldable pub create : Db → CreateRatePlanDto → Result (Db × ℕ)
unfolding plan_row
create db dto = do
  room_type ←
      or_throw
        (find (λ t. (t.id == dto.room_type_id) && (t.property_id == dto.property_id)) db.room_types)
        (bad_request "Room type does not belong to the property")
  guard (fits_int dto.min_stay_nights && fits_int dto.base_price_minor)
      (internal "Unable to fit integer value into an INT4")
  ok (
    record db { rate_plans = plan_row db.next_id dto ∷ db.rate_plans; next_id = suc db.next_id },
    dto.property_id,
  )

abbrev pub given {ℓ} : {A : Type ℓ} → Option A → A → A
given none old = old
given (some new) old = new

abbrev pub fits_given : Option ℕ → Bool
fits_given none = true
fits_given (some n) = fits_int n

-- `data: dto`: a field that is missing is left as it is.
unfoldable pub with_update : UpdateRatePlanDto → RatePlan → RatePlan
with_update dto p = record p {
  name = given dto.name p.name;
  base_price_minor = given dto.base_price_minor p.base_price_minor;
  min_stay_nights = given dto.min_stay_nights p.min_stay_nights;
  active = given dto.active p.active;
}

unfoldable pub update : Db → ℕ → UpdateRatePlanDto → Result (Db × ℕ)
unfolding with_update
update db id dto = do
  plan ← or_throw (find (λ p. p.id == id) db.rate_plans) (not_found "Rate plan not found")
  guard (fits_given dto.base_price_minor && fits_given dto.min_stay_nights)
      (internal "Unable to fit integer value into an INT4")
  ok (
    record db {
      rate_plans = update_where (λ (p : RatePlan). p.id == id) (with_update dto) db.rate_plans;
    },
    plan.property_id,
  )

-- The handlers as a whole.
module _ (r : Redis) where
  unfoldable pub create_rate_plan :
      ℕ → Db × r.Store → CreateRatePlanDto → Result (Unit {0}) × (Db × r.Store)
  unfolding create
  create_rate_plan now w dto = with_bump r now w (create w.0 dto)

  unfoldable pub update_rate_plan :
      ℕ → Db × r.Store → ℕ → UpdateRatePlanDto → Result (Unit {0}) × (Db × r.Store)
  unfolding update
  update_rate_plan now w id dto = with_bump r now w (update w.0 id dto)
