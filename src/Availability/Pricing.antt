-- ===== src/Availability/Pricing.antt =====
-- `priceStay` of availability.service.ts.
pub mod Order
pub mod Laws
use hotelsb2b.Common.{
  ℕ, zero, suc, ◌+◌, ◌≤◌, ◌<◌, ◌≡◌, refl, Bool, true, false, ◌&&◌, Option, none, some, List, [],
  ◌∷◌, head?, select, find, Result, ok, err, or_throw, internal, ◌>>=◌, arith, ltb, leb, ◌==◌,
  if◌then◌else◌,
}
use hotelsb2b.Schema.{Db, RatePlan, RateRule, ℤ, pos, negsuc}
use hotelsb2b.RateRules.{rule_applies_on}
use hotelsb2b.Availability.Nights.{nights}

abbrev pub pos_part : ℤ → ℕ
pos_part (pos n) = n
pos_part (negsuc n) = 0

abbrev pub neg_part : ℤ → ℕ
neg_part (pos n) = 0
neg_part (negsuc n) = suc n

-- `a < b` on integers.
abbrev pub ltb_ℤ : ℤ → ℤ → Bool
ltb_ℤ a b = ltb (pos_part a + neg_part b) (pos_part b + neg_part a)

-- `sort((a, b) => b.priority - a.priority)`: the sort of the language is stable, so any stable
-- sort gives its result; this one inserts from the right.
unfoldable pub insert_by_priority : RateRule → List RateRule → List RateRule
insert_by_priority r [] = r ∷ []
insert_by_priority r (q ∷ qs) =
    if ltb_ℤ r.priority q.priority then q ∷ insert_by_priority r qs else r ∷ q ∷ qs

unfoldable pub sort_by_priority : List RateRule → List RateRule
unfolding insert_by_priority
sort_by_priority [] = []
sort_by_priority (r ∷ rs) = insert_by_priority r (sort_by_priority rs)

module _ (local_time : ℕ → ℕ) where
  -- The filter of `priceStay`.
  unfoldable pub applies : ℕ → RateRule → Bool
  applies night r =
      (leb r.start_date night && ltb night r.end_date)
      && rule_applies_on local_time r.days_of_week night

  -- `applicable[0]?.priceMinor ?? ratePlan.basePriceMinor`.
  unfoldable pub night_price : RatePlan → ℕ → ℕ
  night_price plan night = elim (head? (sort_by_priority (select (applies night) plan.rules))) [
    | some r ↦ r.price_minor
    | none ↦ plan.base_price_minor
  ]

  -- The loop that adds up the nights.
  unfoldable pub total_price : RatePlan → ℕ → List ℕ → ℕ
  total_price plan total [] = total
  total_price plan total (night ∷ later) = total_price plan (total + night_price plan night) later

  -- The plan is looked up whatever its `active` flag; a missing one is an error of the database
  -- client (`findUniqueOrThrow`).
  unfoldable pub price_stay : Db → ℕ → ℕ → ℕ → Result ℕ
  price_stay db rate_plan_id check_in check_out = do
    plan ← or_throw (find (λ p. p.id == rate_plan_id) db.rate_plans) (internal "No RatePlan found")
    ok (total_price plan 0 (nights check_in check_out))
