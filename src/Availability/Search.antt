-- ===== src/Availability/Search.antt =====
-- `computeAvailability` of availability.service.ts: the read path of a search.
pub mod Laws
pub mod Complete
use hotelsb2b.Common.{
  ℕ, ◌≡◌, Bool, true, false, ◌&&◌, List, [], ◌∷◌, Text, select, length, Result, ok, err, ◌>>=◌, leb,
  ltb, ◌==◌, if◌then◌else◌,
}
use hotelsb2b.Schema.{Db, RoomType, RatePlan}
use hotelsb2b.Availability.Nights.{nights}
use hotelsb2b.Availability.Pricing.{price_stay}
use hotelsb2b.Availability.Inventory.{count_available_rooms}

-- `AvailabilityQuery`.
pub record AvailabilityQuery : Type 0 where
  pub property_id : ℕ
  pub check_in : ℕ
  pub check_out : ℕ
  pub adults : ℕ
  pub children : ℕ

-- An entry of `ratePlans`.
pub record PricedPlan : Type 0 where
  pub rate_plan_id : ℕ
  pub name : Text
  pub price_minor : ℕ
  pub currency : Text

pub record RoomTypeAvailability : Type 0 where
  pub room_type_id : ℕ
  pub room_type_name : Text
  pub available_rooms : ℕ
  pub rate_plans : List PricedPlan

-- The `where` of the query over room types.
unfoldable pub suits : AvailabilityQuery → RoomType → Bool
suits q rt =
    ((rt.property_id == q.property_id) && rt.active)
    && (leb q.adults rt.max_adults && leb q.children rt.max_children)

-- `include: { ratePlans: { where: { active: true } } }`.
unfoldable pub active_plans : Db → ℕ → List RatePlan
active_plans db room_type_id =
    select (λ p. (p.room_type_id == room_type_id) && p.active) db.rate_plans

module _ (local_time : ℕ → ℕ) (db : Db) (q : AvailabilityQuery) where
  -- The loop over the plans of a room type.
  unfoldable pub priced_plans : List RatePlan → Result (List PricedPlan)
  priced_plans [] = ok []
  priced_plans (rp ∷ rps) =
      let later = priced_plans rps in
      if ltb (length (nights q.check_in q.check_out)) rp.min_stay_nights then later else do
        price ← price_stay local_time db rp.id q.check_in q.check_out
        rest ← later
        ok (
            record {
              rate_plan_id = rp.id;
              name = rp.name;
              price_minor = price;
              currency = rp.currency;
            }
            ∷ rest)

  -- The entry of a room type in the result, if it has a room and a plan to offer.
  unfoldable pub offer_of :
      RoomType → ℕ → List PricedPlan → List RoomTypeAvailability → List RoomTypeAvailability
  offer_of rt available [] rest = rest
  offer_of rt available (p ∷ ps) rest =
      record {
        room_type_id = rt.id;
        room_type_name = rt.name;
        available_rooms = available;
        rate_plans = p ∷ ps;
      }
      ∷ rest

  -- The loop over the room types.
  unfoldable pub offers : List RoomType → Result (List RoomTypeAvailability)
  offers [] = ok []
  offers (rt ∷ rts) =
      let available = count_available_rooms db q.property_id rt.id q.check_in q.check_out in
      let later = offers rts in
      if leb available 0 then later else do
        plans ← priced_plans (active_plans db rt.id)
        rest ← later
        ok (offer_of rt available plans rest)

  unfoldable pub compute_availability : Result (List RoomTypeAvailability)
  compute_availability = offers (select (suits q) db.room_types)
