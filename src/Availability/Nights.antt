-- ===== src/Availability/Nights.antt =====
-- `nights` of availability.service.ts: the loop over the days of a stay. The rounds are bounded by
-- the days that fit into the stay, one more than the loop can make.
use hotelsb2b.Common.{
  ℕ, zero, suc, ◌+◌, ◌-◌, ◌*◌, ◌/◌, ◌≤◌, ◌<◌, ◌≡◌, refl, ap, List, [], ◌∷◌, ◌++◌, length, arith,
  ltb, if◌then◌else◌, Bool-cases, inl, inr, ltb→lt, ◌∙◌, ap₂,
}
use hotelsb2b.Dates.{day_ms}

-- `while (d < checkOut) { out.push(d); d += one day }`.
nights_from : ℕ → ℕ → ℕ → List ℕ
nights_from zero d check_out = []
nights_from (suc fuel) d check_out =
    let later = nights_from fuel (d + day_ms) check_out in if ltb d check_out then d ∷ later else []

unfoldable pub nights : ℕ → ℕ → List ℕ
unfolding nights_from
nights check_in check_out = nights_from ((check_out - check_in) / day_ms + 1) check_in check_out

-- The instants of `n` days in a row.
abbrev pub days_from : ℕ → ℕ → List ℕ
days_from d zero = []
days_from d (suc n) = d ∷ days_from (d + day_ms) n

nights_from-eq-days_from :
    (fuel n d check_out : ℕ)
    → n ≤ fuel
    → check_out ≤ d + n * day_ms
    → d + n * day_ms < check_out + day_ms
    → nights_from fuel d check_out ≡ days_from d n
unfolding nights_from
nights_from-eq-days_from zero zero d c h lo hi = refl
nights_from-eq-days_from zero (suc n) d c h lo hi = absurd (omega arith)
nights_from-eq-days_from (suc fuel) zero d c h lo hi = ground arith
nights_from-eq-days_from (suc fuel) (suc n) d c h lo hi =
    ground (arith, nights_from-eq-days_from fuel n (d + day_ms) c)

nights_from-over : (fuel d check_out : ℕ) → check_out ≤ d → nights_from fuel d check_out ≡ []
unfolding nights_from
nights_from-over zero d c h = refl
nights_from-over (suc fuel) d c h = ground arith

-- The loop ends, and has visited every day that begins in the stay: as many as the length of the
-- stay in days, rounded up.
pub nights-eq-days_from :
    (check_in check_out : ℕ)
    → nights check_in check_out
      ≡ days_from check_in ((check_out - check_in + (day_ms - 1)) / day_ms)
unfolding nights
nights-eq-days_from check_in check_out = elim (Bool-cases (ltb check_in check_out)) [
  | inl some_night ↦
      let h = ltb→lt check_in check_out some_night in
      nights_from-eq-days_from _ _ check_in check_out (omega arith) (omega arith) (omega arith)
  | inr over ↦
      let h : check_out ≤ check_in = ground arith in
      let zero_days : (check_out - check_in + (day_ms - 1)) / day_ms ≡ 0 = omega arith in
      rw zero_days (nights_from-over _ check_in check_out h)
]

-- A stay of whole days has one night for each.
pub nights-whole_days :
    (check_in n : ℕ) → nights check_in (check_in + n * day_ms) ≡ days_from check_in n
nights-whole_days check_in n =
    let days : (check_in + n * day_ms - check_in + (day_ms - 1)) / day_ms ≡ n = omega arith in
    nights-eq-days_from check_in (check_in + n * day_ms) ∙ ap (days_from check_in) days

pub length-nights : (check_in n : ℕ) → length (nights check_in (check_in + n * day_ms)) ≡ n
length-nights check_in n = rw (nights-whole_days check_in n) (count check_in n)
  where
    count : (d k : ℕ) → length (days_from d k) ≡ k
    count d zero = refl
    count d (suc k) = ap suc (count (d + day_ms) k)

pub days_from-split :
    (d a b : ℕ) → days_from d (a + b) ≡ days_from d a ++ days_from (d + a * day_ms) b
days_from-split d zero b = ap₂ days_from (omega arith) (omega arith)
days_from-split d (suc a) b =
    let n : suc a + b ≡ suc (a + b) = omega arith in
    let e : d + day_ms + a * day_ms ≡ d + suc a * day_ms = omega arith in
    rw n (
      ap (◌∷◌ d)
        (days_from-split (d + day_ms) a b ∙ ap (λ x. days_from (d + day_ms) a ++ days_from x b) e))
