-- ===== src/Dates.antt =====
-- The dates of the booking code: `toDate` and `nightsBetween` of bookings.service.ts (and `toDate`
-- of ai.service.ts), and the `Date` object as they use it. An instant is its number of
-- milliseconds since the start of year 0 of the proleptic Gregorian calendar, the first instant
-- that the format of the inputs can name: a shift of JavaScript's origin that no comparison and no
-- difference sees. `none` is the invalid date, whose time value is NaN. `Date` parses the ISO
-- format as V8 does, where a day up to 31 that the month lacks runs into the next month; years of
-- six digits with a sign, and the engine's fallback for texts of another shape, are not modelled.
pub mod Laws
use hotelsb2b.Common.{
  ℕ, zero, suc, ◌+◌, ◌-◌, ◌*◌, ◌/◌, ◌%◌, ◌<◌, Bool, true, false, ◌&&◌, ◌||◌, not, Option, none,
  some, List, [], ◌∷◌, Text, take, ltb, leb, ◌==◌, if◌then◌else◌, ◌≡◌, refl,
}

-- The milliseconds of a day.
abbrev pub day_ms : ℕ
day_ms = 86_400_000

abbrev pub is_digit : ℕ → Bool
is_digit c = leb b'0' c && leb c b'9'

abbrev pub digit : ℕ → ℕ
digit c = c - 48

-- The days from the start of year 0 to the start of year `y`.
unfoldable pub days_before_year : ℕ → ℕ
days_before_year y = 365 * y + (y + 3) / 4 - (y + 99) / 100 + (y + 399) / 400

unfoldable pub is_leap : ℕ → Bool
is_leap y = ((y % 4) == 0) && (not ((y % 100) == 0) || ((y % 400) == 0))

-- The days from the start of a year to the start of its month `m`, counted from 1.
unfoldable pub days_before_month : ℕ → Bool → ℕ
days_before_month m leap =
    let extra = if leap && ltb 2 m then 1 else 0 in
    (30 * (m - 1) + (if leb m 8 then m / 2 else (m + 1) / 2)) - (if ltb 2 m then 2 else 0) + extra

-- A date of the calendar, if the month and the day are in range.
unfoldable pub date_of : ℕ → ℕ → ℕ → Option ℕ
date_of y m d =
    if (leb 1 m && leb m 12) && (leb 1 d && leb d 31)
    then some ((days_before_year y + days_before_month m (is_leap y) + (d - 1)) * day_ms)
    else none

-- The instant of `YYYY-MM-DDT00:00:00.000Z`, where the day, or the month and the day, may be left
-- out.
unfoldable pub midnight : Text → Option ℕ
unfolding date_of days_before_year days_before_month is_leap
midnight (y₁ ∷ y₂ ∷ y₃ ∷ y₄ ∷ s₁ ∷ m₁ ∷ m₂ ∷ s₂ ∷ d₁ ∷ d₂ ∷ []) =
    if (is_digit y₁ && is_digit y₂ && is_digit y₃ && is_digit y₄ && (s₁ == b'-'))
      && (is_digit m₁ && is_digit m₂ && (s₂ == b'-') && is_digit d₁ && is_digit d₂)
    then date_of (1000 * digit y₁ + 100 * digit y₂ + 10 * digit y₃ + digit y₄)
        (10 * digit m₁ + digit m₂) (10 * digit d₁ + digit d₂)
    else none
midnight (y₁ ∷ y₂ ∷ y₃ ∷ y₄ ∷ s₁ ∷ m₁ ∷ m₂ ∷ []) =
    if (is_digit y₁ && is_digit y₂ && is_digit y₃ && is_digit y₄ && (s₁ == b'-'))
      && (is_digit m₁ && is_digit m₂)
    then date_of (1000 * digit y₁ + 100 * digit y₂ + 10 * digit y₃ + digit y₄)
        (10 * digit m₁ + digit m₂) 1
    else none
midnight (y₁ ∷ y₂ ∷ y₃ ∷ y₄ ∷ []) =
    if is_digit y₁ && is_digit y₂ && is_digit y₃ && is_digit y₄
    then date_of (1000 * digit y₁ + 100 * digit y₂ + 10 * digit y₃ + digit y₄) 1 1
    else none
midnight _ = none

-- `toDate`: the first ten characters, at midnight UTC.
unfoldable pub to_date : Text → Option ℕ
unfolding midnight
to_date iso = midnight (take 10 iso)

-- `nightsBetween(checkIn, checkOut) < 1`. `Math.round` of the quotient is below 1 when the stay is
-- shorter than half a day, and NaN is not below 1.
unfoldable pub less_than_one_night : Option ℕ → Option ℕ → Bool
less_than_one_night (some check_in) (some check_out) = ltb (2 * check_out) (2 * check_in + day_ms)
less_than_one_night _ _ = false

-- `a < b` on dates, false at NaN.
abbrev pub before : Option ℕ → Option ℕ → Bool
before (some a) (some b) = ltb a b
before _ _ = false

epoch :
    to_date (b'1' ∷ b'9' ∷ b'7' ∷ b'0' ∷ b'-' ∷ b'0' ∷ b'1' ∷ b'-' ∷ b'0' ∷ b'1' ∷ [])
    ≡ some (719528 * day_ms)
unfolding to_date
epoch = refl
