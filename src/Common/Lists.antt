-- ===== src/Common/Lists.antt =====
-- Searching, filtering and measuring lists by Boolean tests, with the facts about membership that
-- the components share.
use Prim.Native.Nat.{ℕ, zero, suc}
use mathlib.Core.Path.{ap, ◌≡◌, refl, sym, subst}
use mathlib.Core.Logic.{inl, inr}
use mathlib.Core.Bool.{Bool, true, false, ◌&&◌, ◌||◌}
use mathlib.Core.Option.{Option, none, some}
use mathlib.Core.List.{List, [], ◌∷◌, Memᴰ}
use mathlib.Core.List.Memᴰ
use native.Mathlib.Omega.{arith}
use hotelsb2b.Common.Tests.{if◌then◌else◌, Bool-cases}

module _ {ℓ} {A : Type ℓ} where
  abbrev pub length : List A → ℕ
  length [] = 0
  length (x ∷ xs) = suc (length xs)

  -- `xs.some(p)`, `EXISTS`.
  unfoldable pub any : (A → Bool) → List A → Bool
  any p [] = false
  any p (x ∷ xs) = p x || any p xs

  unfoldable pub all : (A → Bool) → List A → Bool
  all p [] = true
  all p (x ∷ xs) = p x && all p xs

  -- `findFirst`: the first row that passes.
  unfoldable pub find : (A → Bool) → List A → Option A
  find p [] = none
  find p (x ∷ xs) = if p x then some x else find p xs

  -- `findMany`: the rows that pass, in order.
  unfoldable pub select : (A → Bool) → List A → List A
  select p [] = []
  select p (x ∷ xs) = if p x then x ∷ select p xs else select p xs

  -- `update`: the rows that pass are changed.
  unfoldable pub update_where : (A → Bool) → (A → A) → List A → List A
  update_where p f [] = []
  update_where p f (x ∷ xs) = (if p x then f x else x) ∷ update_where p f xs

  abbrev pub take : ℕ → List A → List A
  take zero xs = []
  take (suc n) [] = []
  take (suc n) (x ∷ xs) = x ∷ take n xs

  abbrev pub drop : ℕ → List A → List A
  drop zero xs = xs
  drop (suc n) [] = []
  drop (suc n) (x ∷ xs) = drop n xs

  pub not_any : (p : A → Bool) (xs : List A) → any p xs ≡ false → (x : A) → Memᴰ x xs → p x ≡ false
  unfolding any
  not_any p [] h y m = elim m [ ]
  not_any p (x ∷ xs) h y (Memᴰ.head e) = subst (λ z. p z ≡ false) (sym e) (ground arith)
  not_any p (x ∷ xs) h y (Memᴰ.tail m) = not_any p xs (ground arith) y m

  pub not_any_of :
      (p : A → Bool) (xs : List A) → ((x : A) → Memᴰ x xs → p x ≡ false) → any p xs ≡ false
  unfolding any
  not_any_of p [] h = refl
  not_any_of p (x ∷ xs) h =
      ground (arith, h x (Memᴰ.head refl), not_any_of p xs (λ y m. h y (Memᴰ.tail m)))

  pub find-mem :
      (p : A → Bool) (xs : List A) (x : A) → find p xs ≡ some x → Memᴰ x xs × (p x ≡ true)
  unfolding find
  find-mem p [] x h = absurd (cc)
  find-mem p (y ∷ ys) x h = elim (Bool-cases (p y)) [
    | inl e ↦
        let same : y ≡ x = ground arith in (Memᴰ.head (sym same), subst (λ z. p z ≡ true) same e)
    | inr e ↦ let (m, q) = find-mem p ys x (ground arith) in (Memᴰ.tail m, q)
  ]

  pub find-none :
      (p : A → Bool) (xs : List A) → find p xs ≡ none → (x : A) → Memᴰ x xs → p x ≡ false
  unfolding find
  find-none p [] h y m = elim m [ ]
  find-none p (x ∷ xs) h y (Memᴰ.head e) = subst (λ z. p z ≡ false) (sym e) (ground arith)
  find-none p (x ∷ xs) h y (Memᴰ.tail m) = find-none p xs (ground arith) y m

  pub select-mem :
      (p : A → Bool) (xs : List A) (x : A) → Memᴰ x (select p xs) → Memᴰ x xs × (p x ≡ true)
  unfolding select
  select-mem p [] x m = elim m [ ]
  select-mem p (y ∷ ys) x m = elim (Bool-cases (p y)) [
    | inl e ↦ elim (Memᴰ.cases_cons (rw e at m)) [
      | inl same ↦ (Memᴰ.head same, subst (λ z. p z ≡ true) (sym same) e)
      | inr k ↦ let (k', q) = select-mem p ys x k in (Memᴰ.tail k', q)
    ]
    | inr e ↦ let (k, q) = select-mem p ys x (rw e at m) in (Memᴰ.tail k, q)
  ]

  pub mem-select :
      (p : A → Bool) (xs : List A) (x : A) → Memᴰ x xs → p x ≡ true → Memᴰ x (select p xs)
  unfolding select
  mem-select p [] x m h = elim m [ ]
  mem-select p (y ∷ ys) x (Memᴰ.head e) h = rw (subst (λ z. p z ≡ true) e h) (Memᴰ.head e)
  mem-select p (y ∷ ys) x (Memᴰ.tail m) h = elim (Bool-cases (p y)) [
    | inl e ↦ rw e (Memᴰ.tail (mem-select p ys x m h))
    | inr e ↦ rw e (mem-select p ys x m h)
  ]

  -- Every row of an updated table comes from a row of the table before.
  pub update_where-mem :
      (p : A → Bool) (f : A → A) (xs : List A) (x : A)
      → Memᴰ x (update_where p f xs)
      → (y : A) × Memᴰ y xs × (x ≡ (if p y then f y else y))
  unfolding update_where
  update_where-mem p f [] x m = elim m [ ]
  update_where-mem p f (y ∷ ys) x m = elim (Memᴰ.cases_cons m) [
    | inl e ↦ (y, Memᴰ.head refl, e)
    | inr k ↦ let (z, k', e) = update_where-mem p f ys x k in (z, Memᴰ.tail k', e)
  ]

  -- An update that the test does not see.
  pub find-update_where :
      (p q : A → Bool) (f : A → A) (xs : List A) (x : A)
      → ((y : A) → p (f y) ≡ p y)
      → find p xs ≡ some x
      → find p (update_where q f xs) ≡ some (if q x then f x else x)
  unfolding find update_where
  find-update_where p q f [] x same h = absurd cc
  find-update_where p q f (y ∷ ys) x same h =
      let unseen : p (if q y then f y else y) ≡ p y = elim (Bool-cases (q y)) [
        | inl e ↦ rw e (same y)
        | inr e ↦ rw e refl
      ] in
      elim (Bool-cases (p y)) [
        | inl e ↦
            let found : some y ≡ some x = rw e at h in
            let here : y ≡ x = cc in rw (unseen, e) (ap (λ z. some (if q z then f z else z)) here)
        | inr e ↦ rw (unseen, e) (find-update_where p q f ys x same (rw e at h))
      ]
