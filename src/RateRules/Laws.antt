-- ===== src/RateRules/Laws.antt =====
-- Which nights a mask selects, and what the host's time zone does to it.
use Prim.Native.Nat.{bit_and}
use hotelsb2b.Common.{
  ℕ, zero, suc, ◌+◌, ◌*◌, ◌/◌, ◌%◌, ◌^◌, ◌<◌, ◌≤◌, Bool, true, not, ◌&&◌, ◌≡◌, ◌↔◌, refl, ap, ◌==◌,
  arith, if◌then◌else◌, ==_iff,
}
use hotelsb2b.Dates.{day_ms}
use hotelsb2b.RateRules.{all_days, get_day, rule_applies_on}

for_each : (ℕ → Bool) → ℕ → Bool
for_each test zero = true
for_each test (suc count) = for_each test count && test count

for_each_lem :
    (test : ℕ → Bool) (count i : ℕ) → for_each test count ≡ true → i < count → test i ≡ true
unfolding for_each
for_each_lem test zero i h below = absurd (omega arith)
for_each_lem test (suc count) i h below = ground (arith, for_each_lem test count i)

-- A mask with the bit of one day keeps that bit and no other.
agrees : ℕ → ℕ → Bool
agrees mask i =
    let bit = ((mask / 2 ^ i) % 2) == 1 in
    let kept = not (bit_and mask (2 ^ i) == 0) in if bit then kept else not kept

agrees_table : for_each (λ i. for_each (λ mask. agrees mask i) 128) 7 ≡ true
unfolding for_each agrees
agrees_table = refl

agrees_lem : (mask i : ℕ) → mask < 128 → i < 7 → agrees mask i ≡ true
agrees_lem mask i hm hi =
    for_each_lem (λ m. agrees m i) 128 mask
      (for_each_lem (λ j. for_each (λ m. agrees m j) 128) 7 i agrees_table hi) hm

agrees_iff :
    (mask i : ℕ)
    → agrees mask i ≡ true
    → (not (bit_and mask (2 ^ i) == 0) ≡ true) ↔ ((mask / 2 ^ i) % 2 ≡ 1)
unfolding agrees
agrees_iff mask i h = ground arith

all_days_table : for_each (λ i. (all_days / 2 ^ i) % 2 == 1) 7 ≡ true
unfolding for_each
all_days_table = refl

all_days_bit : (i : ℕ) → i < 7 → (all_days / 2 ^ i) % 2 ≡ 1
all_days_bit i h = (==_iff _ 1).0 (for_each_lem _ 7 i all_days_table h)

module _ (local_time : ℕ → ℕ) where
  -- A rule applies on a date exactly when its mask (of seven bits) has the bit of that week day,
  -- counted from Monday, on the host's clock.
  pub rule_applies_on_iff :
      (mask date : ℕ)
      → mask < 128
      → (rule_applies_on local_time mask date ≡ true)
        ↔ ((mask / 2 ^ ((get_day local_time date + 6) % 7)) % 2 ≡ 1)
  unfolding rule_applies_on
  rule_applies_on_iff mask date h =
      agrees_iff mask _ (agrees_lem mask ((get_day local_time date + 6) % 7) h (omega arith))

  -- The mask of all days applies on every date.
  pub rule_applies_on-all_days : (date : ℕ) → rule_applies_on local_time all_days date ≡ true
  rule_applies_on-all_days date =
      (rule_applies_on_iff all_days date (omega arith)).1
        (all_days_bit ((get_day local_time date + 6) % 7) (omega arith))

  -- Where the host's clock is behind UTC, by a day at most, the week day of a midnight in UTC is
  -- that of the day before.
  get_day-behind_utc :
      (days behind : ℕ)
      → 0 < behind
      → behind ≤ day_ms
      → local_time (suc days * day_ms) + behind ≡ suc days * day_ms
      → get_day local_time (suc days * day_ms) ≡ get_day (λ t. t) (days * day_ms)
  unfolding get_day
  get_day-behind_utc days behind lo hi e = omega arith

  -- On a host whose clock is behind UTC, by a day at most, a rule applies to a night, which is a
  -- midnight in UTC, exactly when on a host at UTC it would apply to the night before: the days of
  -- every mask are shifted by one.
  pub rule_applies_on-behind_utc :
      (mask days behind : ℕ)
      → 0 < behind
      → behind ≤ day_ms
      → local_time (suc days * day_ms) + behind ≡ suc days * day_ms
      → rule_applies_on local_time mask (suc days * day_ms)
        ≡ rule_applies_on (λ t. t) mask (days * day_ms)
  unfolding rule_applies_on
  rule_applies_on-behind_utc mask days behind lo hi e =
      ap (λ d. not (bit_and mask (2 ^ ((d + 6) % 7)) == 0)) (get_day-behind_utc days behind lo hi e)
