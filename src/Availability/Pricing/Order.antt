-- ===== src/Availability/Pricing/Order.antt =====
-- The sort of the rules: its head has the highest priority.
use hotelsb2b.Common.{
  ◌≡◌, refl, sym, subst, ◌∙◌, true, false, inl, inr, some, List, [], ◌∷◌, Memᴰ, head?, arith,
  if◌then◌else◌, Bool-cases,
}
use mathlib.Core.List.Memᴰ
use hotelsb2b.Schema.{RateRule}
use hotelsb2b.Availability.Pricing.{ltb_ℤ, insert_by_priority, sort_by_priority}

pub sort-nil : sort_by_priority [] ≡ []
unfolding sort_by_priority
sort-nil = refl

-- `r` is a rule of the list that no other exceeds in priority.
abbrev pub IsTop : RateRule → List RateRule → Type 0
IsTop r rs = Memᴰ r rs × ((q : RateRule) → Memᴰ q rs → ltb_ℤ r.priority q.priority ≡ false)

-- The head of an insertion is the new rule, unless the old head exceeds it.
head-insert :
    (r q : RateRule) (qs : List RateRule)
    → head? qs ≡ some q
    → head? (insert_by_priority r qs) ≡ (if ltb_ℤ r.priority q.priority then some q else some r)
unfolding insert_by_priority
head-insert r q [] h = absurd (cc)
head-insert r q (x ∷ qs) h =
    let same : x ≡ q = ground arith in
    subst
      (λ y.
        head? (insert_by_priority r (x ∷ qs))
        ≡ (if ltb_ℤ r.priority y.priority then some y else some r))
      same (elim (Bool-cases (ltb_ℤ r.priority x.priority)) [ inl e ↦ rw e | inr e ↦ rw e ])

irreflexive : (r : RateRule) → ltb_ℤ r.priority r.priority ≡ false
irreflexive r = ground arith

below_left :
    (r q x : RateRule)
    → ltb_ℤ r.priority q.priority ≡ false
    → ltb_ℤ q.priority x.priority ≡ false
    → ltb_ℤ r.priority x.priority ≡ false
below_left r q x h k = ground arith

asymmetric :
    (r q : RateRule) → ltb_ℤ r.priority q.priority ≡ true → ltb_ℤ q.priority r.priority ≡ false
asymmetric r q h = ground arith

IsTop-cons_new :
    {r q : RateRule} {rs : List RateRule}
    → ltb_ℤ r.priority q.priority ≡ false
    → IsTop q rs
    → IsTop r (r ∷ rs)
IsTop-cons_new {r} {q} {rs} h (m, top) = (Memᴰ.head refl, highest)
  where
    highest : (x : RateRule) → Memᴰ x (r ∷ rs) → ltb_ℤ r.priority x.priority ≡ false
    highest x k = elim (Memᴰ.cases_cons k) [
      | inl e ↦ subst (λ y. ltb_ℤ r.priority y.priority ≡ false) (sym e) (irreflexive r)
      | inr l ↦ below_left r q x h (top x l)
    ]

IsTop-cons_old :
    {r q : RateRule} {rs : List RateRule}
    → ltb_ℤ r.priority q.priority ≡ true
    → IsTop q rs
    → IsTop q (r ∷ rs)
IsTop-cons_old {r} {q} {rs} h (m, top) = (Memᴰ.tail m, highest)
  where
    highest : (x : RateRule) → Memᴰ x (r ∷ rs) → ltb_ℤ q.priority x.priority ≡ false
    highest x k = elim (Memᴰ.cases_cons k) [
      | inl e ↦ subst (λ y. ltb_ℤ q.priority y.priority ≡ false) (sym e) (asymmetric r q h)
      | inr l ↦ top x l
    ]

pub head-sort :
    (r : RateRule) (rs : List RateRule)
    → (q : RateRule) × (head? (sort_by_priority (r ∷ rs)) ≡ some q) × IsTop q (r ∷ rs)
unfolding sort_by_priority insert_by_priority
head-sort r [] = (
  r,
  refl,
  (
    Memᴰ.head refl,
    λ x k. elim (Memᴰ.cases_cons k) [
      | inl e ↦ subst (λ y. ltb_ℤ r.priority y.priority ≡ false) (sym e) (irreflexive r)
      | inr l ↦ elim l [ ]
    ],
  ),
)
head-sort r (x ∷ rs) =
    let (q, h, top) = head-sort x rs in
    elim (Bool-cases (ltb_ℤ r.priority q.priority)) [
      | inl e ↦ (q, head-insert r q _ h ∙ rw e, IsTop-cons_old e top)
      | inr e ↦ (r, head-insert r q _ h ∙ rw e, IsTop-cons_new e top)
    ]
