-- ===== src/Availability/Pricing/Laws.antt =====
-- What a night costs, and that the price of a stay is the sum of its parts.
use hotelsb2b.Common.{
  ℕ, ◌+◌, ◌*◌, ◌≤◌, ◌≡◌, refl, sym, subst, ap, ◌∙◌, true, false, ◌⊎◌, inl, inr, some, List, [], ◌∷◌,
  ◌++◌, Memᴰ, select, select-mem, mem-select, length, find, ◌==◌, ok, ◌>>=◌, arith, Bool-cases,
  Option-cases,
}
use hotelsb2b.Schema.{Db, RatePlan, RateRule}
use hotelsb2b.Dates.{day_ms}
use hotelsb2b.Availability.Nights.{
  nights, days_from, nights-whole_days, days_from-split, length-nights,
}
use hotelsb2b.Availability.Pricing.{ltb_ℤ, applies, night_price, total_price, price_stay}
use hotelsb2b.Availability.Pricing.Order.{head-sort, sort-nil}

module _ (local_time : ℕ → ℕ) (plan : RatePlan) where
  -- The rule that sets the price of a night: it applies, and no applicable rule has a higher
  -- priority.
  pub record IsDeciding (night : ℕ) (r : RateRule) : Type 0 where
    pub listed : Memᴰ r plan.rules
    pub applicable : applies local_time night r ≡ true
    pub highest :
        (q : RateRule)
        → Memᴰ q plan.rules
        → applies local_time night q ≡ true
        → ltb_ℤ r.priority q.priority ≡ false

  -- A night costs what a deciding rule says if a rule applies, and the base price if none does.
  pub night_price_lem :
      (night : ℕ)
      → ((r : RateRule) × IsDeciding night r × (night_price local_time plan night ≡ r.price_minor))
        ⊎ (((q : RateRule) → Memᴰ q plan.rules → applies local_time night q ≡ false)
            × (night_price local_time plan night ≡ plan.base_price_minor))
  unfolding night_price
  night_price_lem night = decide (select (applies local_time night) plan.rules) refl
    where
      listed :
          {rs : List RateRule}
          → select (applies local_time night) plan.rules ≡ rs
          → (q : RateRule) → Memᴰ q plan.rules
          → applies local_time night q ≡ true
          → Memᴰ q rs
      listed e q m a = subst (Memᴰ q) e (mem-select (applies local_time night) plan.rules q m a)

      none_applies :
          select (applies local_time night) plan.rules ≡ []
          → (q : RateRule) → Memᴰ q plan.rules
          → applies local_time night q ≡ false
      none_applies e q m = elim (Bool-cases (applies local_time night q)) [
        | inl a ↦ elim (listed e q m a) [ ]
        | inr a ↦ a
      ]

      decide :
          (rs : List RateRule)
          → select (applies local_time night) plan.rules ≡ rs
          → ((r : RateRule) × IsDeciding night r
              × (night_price local_time plan night ≡ r.price_minor))
            ⊎ (((q : RateRule) → Memᴰ q plan.rules → applies local_time night q ≡ false)
                × (night_price local_time plan night ≡ plan.base_price_minor))
      decide [] e = inr (none_applies e, rw (e, night_price) (rw sort-nil))
      decide (x ∷ rs) e =
          let (r, h, (m, top)) = head-sort x rs in
          let (m', a) =
            select-mem (applies local_time night) plan.rules r (subst (Memᴰ r) (sym e) m) in
          inl (
            r,
            record { listed = m'; applicable = a; highest = λ q k b. top q (listed e q k b) },
            rw (e, night_price) (rw h),
          )

  total_price-add :
      (total extra : ℕ) (ns : List ℕ)
      → total_price local_time plan (total + extra) ns
        ≡ total + total_price local_time plan extra ns
  unfolding total_price
  total_price-add total extra [] = refl
  total_price-add total extra (n ∷ ns) =
      ap (λ k. total_price local_time plan k ns) (omega arith)
      ∙ total_price-add total (extra + night_price local_time plan n) ns

  pub total_price-append :
      (total : ℕ) (ms ns : List ℕ)
      → total_price local_time plan total (ms ++ ns)
        ≡ total_price local_time plan total ms + total_price local_time plan 0 ns
  unfolding total_price
  total_price-append total [] ns =
      ap (λ k. total_price local_time plan k ns) (omega arith) ∙ total_price-add total 0 ns
  total_price-append total (m ∷ ms) ns =
      total_price-append (total + night_price local_time plan m) ms ns

  pub total_price-le :
      (most total : ℕ) (ns : List ℕ)
      → plan.base_price_minor ≤ most
      → ((r : RateRule) → Memᴰ r plan.rules → r.price_minor ≤ most)
      → total_price local_time plan total ns ≤ total + length ns * most
  unfolding total_price
  total_price-le most total [] b h = omega arith
  total_price-le most total (n ∷ ns) b h =
      omega (arith, total_price-le most (total + night_price local_time plan n) ns b h, each n)
    where
      each : (night : ℕ) → night_price local_time plan night ≤ most
      each night = elim (night_price_lem night) [
        | inl (r, d, e) ↦ rw e (h r d.listed)
        | inr (_, e) ↦ rw e b
      ]

  total_price-ge :
      (least total : ℕ) (ns : List ℕ)
      → least ≤ plan.base_price_minor
      → ((r : RateRule) → Memᴰ r plan.rules → least ≤ r.price_minor)
      → total + length ns * least ≤ total_price local_time plan total ns
  unfolding total_price
  total_price-ge least total [] b h = omega arith
  total_price-ge least total (n ∷ ns) b h =
      omega (arith, total_price-ge least (total + night_price local_time plan n) ns b h, each n)
    where
      each : (night : ℕ) → least ≤ night_price local_time plan night
      each night = elim (night_price_lem night) [
        | inl (r, d, e) ↦ rw e (h r d.listed)
        | inr (_, e) ↦ rw e b
      ]

module _ (local_time : ℕ → ℕ) where
  -- A stay of whole days costs what its two parts cost, wherever it is cut; an unknown plan is the
  -- same error for the whole and for the parts.
  pub price_stay-split :
      (db : Db) (id check_in m n : ℕ)
      → price_stay local_time db id check_in (check_in + (m + n) * day_ms) ≡ (
          price_stay local_time db id check_in (check_in + m * day_ms) >>= λ first.
          price_stay local_time db id (check_in + m * day_ms) (check_in + m * day_ms + n * day_ms)
          >>= λ second. ok (first + second))
  unfolding price_stay
  price_stay-split db id check_in m n = elim (Option-cases (find (λ p. p.id == id) db.rate_plans)) [
    | inl e ↦ rw e
    | inr (plan, e) ↦ rw e (ap ok (parts plan))
  ]
    where
      parts :
          (plan : RatePlan)
          → total_price local_time plan 0 (nights check_in (check_in + (m + n) * day_ms))
            ≡ total_price local_time plan 0 (nights check_in (check_in + m * day_ms))
              + total_price local_time plan 0
                  (nights (check_in + m * day_ms) (check_in + m * day_ms + n * day_ms))
      parts plan =
          rw
            (
              nights-whole_days check_in (m + n),
              nights-whole_days check_in m,
              nights-whole_days (check_in + m * day_ms) n,
              days_from-split check_in m n,
            )
            (total_price-append local_time plan 0 (days_from check_in m)
              (days_from (check_in + m * day_ms) n))

  -- The stay of n nights with a plan that there is has a price, and it is at most n times the dearest
  -- price of the plan, and at least n times its cheapest, rules included.
  pub price_stay-between :
      (db : Db) (id check_in n least most : ℕ) (plan : RatePlan)
      → find (λ p. p.id == id) db.rate_plans ≡ some plan
      → (least ≤ plan.base_price_minor) × (plan.base_price_minor ≤ most)
      → ((r : RateRule) → Memᴰ r plan.rules → (least ≤ r.price_minor) × (r.price_minor ≤ most))
      → (price : ℕ) × (price_stay local_time db id check_in (check_in + n * day_ms) ≡ ok price)
        × (n * least ≤ price)
        × (price ≤ n * most)
  unfolding price_stay
  price_stay-between db id check_in n least most plan found (low, high) within =
      let ns = nights check_in (check_in + n * day_ms) in
      let count = length-nights check_in n in
      (
        total_price local_time plan 0 ns,
        rw found refl,
        omega (
          arith,
          total_price-ge local_time plan least 0 ns low (λ r m. (within r m).0),
          ap (λ (l : ℕ). l * least) count,
        ),
        omega (
          arith,
          total_price-le local_time plan most 0 ns high (λ r m. (within r m).1),
          ap (λ (l : ℕ). l * most) count,
        ),
      )
