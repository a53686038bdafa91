-- ===== src/Examples/Inventory.antt =====
-- The theorems on nights, prices and inventory at the sample hotel.
use hotelsb2b.Common.{
  some, ◌==◌, find, ℕ, ◌+◌, ◌-◌, ◌*◌, ◌/◌, ◌≤◌, ◌<◌, ◌≡◌, ◌⊎◌, ◌↔◌, refl, true, false, [], ◌∷◌,
  Memᴰ, ok, err, conflict, arith, select, any, find,
}
use hotelsb2b.Schema.{Room, RateRule}
use hotelsb2b.Dates.{day_ms}
use hotelsb2b.RateRules.{rule_applies_on}
use hotelsb2b.RateRules.Laws.{rule_applies_on-behind_utc}
use hotelsb2b.Availability.Nights.{nights, days_from, nights-eq-days_from}
use hotelsb2b.Availability.Pricing.{price_stay, night_price, applies}
use hotelsb2b.Availability.Pricing.Laws.{IsDeciding, night_price_lem, price_stay-between}
use hotelsb2b.Availability.Inventory.{
  count_available_rooms, reserve_available_room, is_free, is_locked, first_by_number,
}
use hotelsb2b.Availability.Inventory.Laws.{
  IsFree, reserve_sound, reserve_refused_iff, reserve-count,
}
use hotelsb2b.Examples.{utc, precedes, at_january, hotel, flexible, festival}

nights-eq-days_from_example :
    nights (at_january 10) (at_january 13)
    ≡ days_from (at_january 10) ((at_january 13 - at_january 10 + (day_ms - 1)) / day_ms)
nights-eq-days_from_example = nights-eq-days_from (at_january 10) (at_january 13)

rule_applies_on-behind_utc_example :
    rule_applies_on (λ t. t - 18_000_000) 1 (739_991 * day_ms)
    ≡ rule_applies_on (λ t. t) 1 (739_990 * day_ms)
rule_applies_on-behind_utc_example =
    rule_applies_on-behind_utc (λ t. t - 18_000_000) 1 739_990 18_000_000 (omega arith)
      (omega arith) (omega arith)

night_price_lem_example :
    ((r : RateRule) × IsDeciding utc flexible (at_january 11) r
      × (night_price utc flexible (at_january 11) ≡ r.price_minor))
    ⊎ (((q : RateRule) → Memᴰ q flexible.rules → applies utc (at_january 11) q ≡ false)
        × (night_price utc flexible (at_january 11) ≡ flexible.base_price_minor))
night_price_lem_example = night_price_lem utc flexible (at_january 11)

festival_price :
    (r : RateRule) → Memᴰ r (festival ∷ []) → (10_000 ≤ r.price_minor) × (r.price_minor ≤ 15_000)
festival_price r (Memᴰ.head e) = rw e (omega arith, omega arith)
festival_price r (Memᴰ.tail m) = elim m [ ]

flexible_plan : find (λ p. p.id == 31) hotel.rate_plans ≡ some flexible
unfolding find
flexible_plan = refl

price_stay-between_example :
    (price : ℕ) × (price_stay utc hotel 31 (at_january 11) (at_january 11 + 2 * day_ms) ≡ ok price)
    × (2 * 10_000 ≤ price)
    × (price ≤ 2 * 15_000)
price_stay-between_example =
    price_stay-between utc hotel 31 (at_january 11) 2 10_000 15_000 flexible flexible_plan
      (omega arith, omega arith) festival_price

-- Room 21 is the first by number; while another transaction has locked it, room 22 is.
reserved :
    reserve_available_room precedes (21 ∷ []) hotel 1 11 (at_january 11) (at_january 13) ≡ ok 22
unfolding reserve_available_room is_free is_locked select any first_by_number
reserved = refl

reserve_sound_example :
    (r : Room) × Memᴰ r hotel.rooms
    × (r.id ≡ 22)
    × IsFree hotel 1 11 (at_january 11) (at_january 13) r
    × (is_locked (21 ∷ []) r ≡ false)
reserve_sound_example =
    reserve_sound precedes (21 ∷ []) hotel 1 11 (at_january 11) (at_january 13) 22 reserved

reserve_refused_iff_example :
    (reserve_available_room precedes (21 ∷ 22 ∷ []) hotel 1 11 (at_january 11) (at_january 13)
      ≡ err (conflict "No availability for the selected room type and dates"))
    ↔ ((r : Room)
        → Memᴰ r hotel.rooms
        → is_free hotel 1 11 (at_january 11) (at_january 13) r ≡ true
        → is_locked (21 ∷ 22 ∷ []) r ≡ true)
reserve_refused_iff_example =
    reserve_refused_iff precedes (21 ∷ 22 ∷ []) hotel 1 11 (at_january 11) (at_january 13)

reserve-count_example :
    (0 < count_available_rooms hotel 1 11 (at_january 11) (at_january 13)
      → (id : ℕ) × (reserve_available_room precedes [] hotel 1 11 (at_january 11) (at_january 13)
          ≡ ok id))
    × (count_available_rooms hotel 1 11 (at_january 11) (at_january 13) ≡ 0
        → reserve_available_room precedes [] hotel 1 11 (at_january 11) (at_january 13)
          ≡ err (conflict "No availability for the selected room type and dates"))
reserve-count_example = reserve-count precedes hotel 1 11 (at_january 11) (at_january 13)
