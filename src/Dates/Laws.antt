-- ===== src/Dates/Laws.antt =====
-- Calendar arithmetic: `date_of` counts the days of the calendar.
use hotelsb2b.Common.{
  ℕ, suc, ◌+◌, ◌<◌, ◌≤◌, Bool, true, false, ◌≡◌, refl, ap, Option, some, arith, if◌then◌else◌, ltb,
  ◌==◌, ◌||◌, Bool-cases, ltb→lt, inl, inr, ◌∙◌,
}
use hotelsb2b.Dates.{days_before_year, is_leap, days_before_month, date_of, day_ms}

-- The length of a month, by the calendar's rule.
pub days_in_month : ℕ → Bool → ℕ
days_in_month m leap =
    if m == 2
    then (if leap then 29 else 28)
    else if ((m == 4) || (m == 6)) || ((m == 9) || (m == 11))
    then 30
    else 31

pub days_in_year :
    (y : ℕ) → days_before_year (suc y) ≡ days_before_year y + (if is_leap y then 366 else 365)
unfolding days_before_year is_leap
days_in_year y = ground arith

month_end :
    (m : ℕ) (leap : Bool)
    → 1 ≤ m
    → m < 12
    → days_before_month (suc m) leap ≡ days_before_month m leap + days_in_month m leap
unfolding days_before_month days_in_month
month_end m leap h k = ground arith

-- The day after a date, by the calendar's rule.
abbrev pub next_day : ℕ → ℕ → ℕ → ℕ × ℕ × ℕ
next_day y m d =
    if ltb d (days_in_month m (is_leap y))
    then (y, m, suc d)
    else if ltb m 12
    then (y, suc m, 1)
    else (suc y, 1, 1)

abbrev pub date_at : ℕ × ℕ × ℕ → Option ℕ
date_at (y, m, d) = date_of y m d

year_end : (leap : Bool) → days_before_month 12 leap + 31 ≡ (if leap then 366 else 365)
unfolding days_before_month
year_end true = refl
year_end false = refl

days_in_month-le : (m : ℕ) (leap : Bool) → days_in_month m leap ≤ 31
unfolding days_in_month
days_in_month-le m leap = ground arith

day_in_month :
    (y m d t : ℕ)
    → d < days_in_month m (is_leap y)
    → date_of y m d ≡ some t
    → date_of y m (suc d) ≡ some (t + day_ms)
unfolding date_of
day_in_month y m d t h e =
    let bound : d < 31 = omega (arith, h, days_in_month-le m (is_leap y)) in ground (arith, bound)

first_of_month :
    (y m d t : ℕ)
    → d ≡ days_in_month m (is_leap y)
    → m < 12
    → date_of y m d ≡ some t
    → date_of y (suc m) 1 ≡ some (t + day_ms)
unfolding date_of
first_of_month y m d t h k e = ground (arith, month_end m (is_leap y))

month_le : (y m d t : ℕ) → date_of y m d ≡ some t → m ≤ 12
unfolding date_of
month_le y m d t e = ground arith

year_start : (leap : Bool) → days_before_month 1 leap ≡ 0
unfolding days_before_month
year_start true = refl
year_start false = refl

december : (leap : Bool) → days_in_month 12 leap ≡ 31
unfolding days_in_month
december leap = refl

first_of_next_year :
    (y d t : ℕ) → d ≡ 31 → date_of y 12 d ≡ some t → date_of (suc y) 1 1 ≡ some (t + day_ms)
unfolding date_of
first_of_next_year y d t h e =
    ground (arith, days_in_year y, year_end (is_leap y), year_start (is_leap (suc y)))

first_of_year :
    (y m d t : ℕ)
    → d ≡ days_in_month m (is_leap y)
    → 12 ≤ m
    → date_of y m d ≡ some t
    → date_of (suc y) 1 1 ≡ some (t + day_ms)
first_of_year y m d t h k e =
    let twelve : m ≡ 12 = omega (arith, month_le y m d t e) in
    first_of_next_year y d t
      (h ∙ ap (λ n. days_in_month n (is_leap y)) twelve ∙ december (is_leap y)) (rw twelve at e)

-- One day on in the calendar is one day on in time.
pub date_of-next_day :
    (y m d t : ℕ)
    → d ≤ days_in_month m (is_leap y)
    → date_of y m d ≡ some t
    → date_at (next_day y m d) ≡ some (t + day_ms)
date_of-next_day y m d t h e = elim (Bool-cases (ltb d (days_in_month m (is_leap y)))) [
  | inl within ↦ rw within (day_in_month y m d t (ltb→lt _ _ within) e)
  | inr last ↦ rw last (elim (Bool-cases (ltb m 12)) [
    | inl k ↦ rw k (first_of_month y m d t (ground arith) (ltb→lt _ _ k) e)
    | inr k ↦ rw k (first_of_year y m d t (ground arith) (ground arith) e)
  ])
]
