-- ===== src/RateRules.antt =====
-- packages/shared/src/rate-rules.ts: the bit mask of week days of a rate rule. Bit i is Monday's for
-- i = 0 and Sunday's for i = 6. `getDay` reads the date in the time zone of the host: the section's
-- `local_time` gives the host's wall clock for an instant.
pub mod Laws
use Prim.Native.Nat.{bit_and}
use hotelsb2b.Common.{ℕ, ◌+◌, ◌*◌, ◌/◌, ◌%◌, ◌^◌, Bool, not, ◌==◌}
use hotelsb2b.Dates.{day_ms}

-- `ALL_DAYS`.
abbrev pub all_days : ℕ
all_days = 127

-- The week day of an instant on a wall clock, 0 for Sunday. Year 0 starts on a Saturday.
unfoldable pub week_day : ℕ → ℕ
week_day t = (t / day_ms + 6) % 7

module _ (local_time : ℕ → ℕ) where
  -- `Date.prototype.getDay`.
  unfoldable pub get_day : ℕ → ℕ
  unfolding week_day
  get_day date = week_day (local_time date)

  unfoldable pub day_of_week_bit : ℕ → ℕ
  unfolding get_day
  day_of_week_bit date =
      let js_day = get_day date in let mon_index = (js_day + 6) % 7 in 2 ^ mon_index

  unfoldable pub rule_applies_on : ℕ → ℕ → Bool
  unfolding day_of_week_bit
  rule_applies_on mask date = not (bit_and mask (day_of_week_bit date) == 0)
