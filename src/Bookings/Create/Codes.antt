-- ===== src/Bookings/Create/Codes.antt =====
-- `insertWithUniqueCode` of bookings.service.ts, and confirmation-code.ts.
use hotelsb2b.Common.{
  ℕ, zero, suc, ◌+◌, ◌-◌, ◌≡◌, ◌<◌, refl, sym, subst, ap, inl, inr, Bool, true, false, Option, none,
  some, List, [], ◌∷◌, Memᴰ, Text, text_eq, any, not_any, length, ok, err, internal, ok-injective,
  arith, ltb, Bool-cases,
}
use mathlib.Core.List.Memᴰ
use hotelsb2b.Schema.{Booking}
use hotelsb2b.Bookings.Create.{insert_attempts, insert_with_unique_code, confirmation_retries}

-- `ALPHABET`.
abbrev pub alphabet : Text
alphabet =
    b'A' ∷ b'B' ∷ b'C' ∷ b'D' ∷ b'E' ∷ b'F' ∷ b'G' ∷ b'H' ∷ b'J' ∷ b'K' ∷ b'M' ∷ b'N' ∷ b'P' ∷ b'Q'
    ∷ b'R' ∷ b'S' ∷ b'T' ∷ b'U' ∷ b'V' ∷ b'W' ∷ b'X' ∷ b'Y' ∷ b'Z' ∷ b'2' ∷ b'3' ∷ b'4' ∷ b'5'
    ∷ b'6' ∷ b'7' ∷ b'8' ∷ b'9' ∷ []

-- `ALPHABET[i]`, if it is there.
unfoldable pub letter : Text → ℕ → Option ℕ
letter [] i = none
letter (c ∷ s) zero = some c
letter (c ∷ s) (suc i) = letter s i

-- `code += …`; `undefined` past the alphabet.
abbrev pub appended : Option ℕ → Text → Text
appended (some c) s = c ∷ s
appended none s = b'u' ∷ b'n' ∷ b'd' ∷ b'e' ∷ b'f' ∷ b'i' ∷ b'n' ∷ b'e' ∷ b'd' ∷ s

-- `generateConfirmationCode`: `draw i` is the i-th reply of `randomInt(ALPHABET.length)`. The loop
-- appends on the right; built from its last round, it is the same text.
unfoldable pub generate_from : (ℕ → ℕ) → ℕ → ℕ → Text
generate_from draw i zero = []
generate_from draw i (suc left) =
    appended (letter alphabet (draw i)) (generate_from draw (i + 1) left)

unfoldable pub generate_confirmation_code : (ℕ → ℕ) → ℕ → Text
unfolding generate_from letter
generate_confirmation_code draw size = generate_from draw 0 size

letter-some : (s : Text) (i : ℕ) → i < length s → (c : ℕ) × (letter s i ≡ some c) × Memᴰ c s
unfolding letter
letter-some [] i h = elim h [ ]
letter-some (c ∷ s) zero h = (c, refl, Memᴰ.head refl)
letter-some (c ∷ s) (suc i) h = let (d, e, m) = letter-some s i (omega arith) in (d, e, Memᴰ.tail m)

-- A code of the size that is asked for, over the alphabet.
abbrev pub IsCode : ℕ → Text → Type 0
IsCode size s = (length s ≡ size) × ((c : ℕ) → Memᴰ c s → Memᴰ c alphabet)

generate_from-IsCode :
    (draw : ℕ → ℕ) (i size : ℕ) → ((k : ℕ) → draw k < 31) → IsCode size (generate_from draw i size)
unfolding generate_from
generate_from-IsCode draw i zero h = (refl, λ c m. elim m [ ])
generate_from-IsCode draw i (suc left) h =
    let (c, e, m) = letter-some alphabet (draw i) (h i) in
    let (size, over) = generate_from-IsCode draw (i + 1) left h in
    subst (λ o. IsCode (suc left) (appended o (generate_from draw (i + 1) left))) (sym e)
      (
        ap suc size,
        λ d k. elim (Memᴰ.cases_cons k) [
          | inl same ↦ subst (λ x. Memᴰ x alphabet) (sym same) m
          | inr l ↦ over d l
        ],
      )

-- With draws in range, a confirmation code has the size that is asked for and only letters of the
-- alphabet.
pub generate_confirmation_code-IsCode :
    (draw : ℕ → ℕ) (size : ℕ)
    → ((k : ℕ) → draw k < 31)
    → IsCode size (generate_confirmation_code draw size)
unfolding generate_confirmation_code
generate_confirmation_code-IsCode draw size h = generate_from-IsCode draw 0 size h

abbrev taken : List Booking → Text → Bool
taken bookings code = any (λ b. text_eq b.confirmation_code code) bookings

attempts-fresh :
    (aborts : Bool) (codes : ℕ → Text) (bookings : List Booking) (left attempt : ℕ) (aborted : Bool)
    (code : Text)
    → insert_attempts aborts codes bookings left attempt aborted ≡ ok code
    → (taken bookings code ≡ false) × ((k : ℕ) × (code ≡ codes k))
unfolding insert_attempts
attempts-fresh aborts codes bookings zero attempt aborted code e = absurd (cc)
attempts-fresh aborts codes bookings (suc left) attempt true code e = absurd (cc)
attempts-fresh aborts codes bookings (suc left) attempt false code e =
    elim (Bool-cases (taken bookings (codes attempt))) [
      | inl used ↦ elim (Bool-cases (ltb attempt (confirmation_retries - 1))) [
        | inl again ↦
            attempts-fresh aborts codes bookings left (attempt + 1) aborts code
              (rw (used, again) at e)
        | inr last ↦ absurd (ground arith)
      ]
      | inr free ↦
          let same = ok-injective (rw free at e) in
          (subst (λ s. taken bookings s ≡ false) same free, (attempt, sym same))
    ]

-- A booking is only ever written under a code that no other booking has.
pub insert_with_unique_code-fresh :
    (aborts : Bool) (codes : ℕ → Text) (bookings : List Booking) (code : Text)
    → insert_with_unique_code aborts codes bookings ≡ ok code
    → (b : Booking) → Memᴰ b bookings
    → text_eq b.confirmation_code code ≡ false
unfolding insert_with_unique_code
insert_with_unique_code-fresh aborts codes bookings code e =
    not_any _ bookings (attempts-fresh aborts codes bookings confirmation_retries 0 false code e).0

-- Where a failed statement dooms its transaction, no code but the first can be allocated, and the
-- retries never help.
pub insert_with_unique_code_iff :
    (codes : ℕ → Text) (bookings : List Booking)
    → (any (λ b. text_eq b.confirmation_code (codes 0)) bookings ≡ false
        → insert_with_unique_code true codes bookings ≡ ok (codes 0))
      × (any (λ b. text_eq b.confirmation_code (codes 0)) bookings ≡ true
          → insert_with_unique_code true codes bookings
            ≡ err (internal "Current transaction is aborted"))
unfolding insert_with_unique_code insert_attempts
insert_with_unique_code_iff codes bookings = (λ h. rw h, λ h. rw h)

retries-succeed :
    (codes : ℕ → Text) (bookings : List Booking) (left attempt k : ℕ)
    → k < left
    → attempt + left ≡ confirmation_retries
    → taken bookings (codes (attempt + k)) ≡ false
    → (code : Text) × (insert_attempts false codes bookings left attempt false ≡ ok code)
unfolding insert_attempts
retries-succeed codes bookings zero attempt k h e free = elim h [ ]
retries-succeed codes bookings (suc left) attempt zero h e free =
    let here : attempt + 0 ≡ attempt = omega arith in
    (codes attempt, rw (subst (λ n. taken bookings (codes n) ≡ false) here free))
retries-succeed codes bookings (suc left) attempt (suc k) h e free =
    elim (Bool-cases (taken bookings (codes attempt))) [
      | inl used ↦
          let again : ltb attempt (confirmation_retries - 1) ≡ true = ground arith in
          let next : attempt + suc k ≡ attempt + 1 + k = omega arith in
          let (code, done) =
            retries-succeed codes bookings left (attempt + 1) k (omega arith) (omega arith)
              (subst (λ n. taken bookings (codes n) ≡ false) next free) in
          (code, rw (used, again) done)
      | inr here ↦ (codes attempt, rw here)
    ]

-- Where it does not, a free code among the five that are drawn is enough.
pub insert_with_unique_code-retries :
    (codes : ℕ → Text) (bookings : List Booking) (k : ℕ)
    → k < confirmation_retries
    → any (λ b. text_eq b.confirmation_code (codes k)) bookings ≡ false
    → (code : Text) × (insert_with_unique_code false codes bookings ≡ ok code)
unfolding insert_with_unique_code
insert_with_unique_code-retries codes bookings k h free =
    let e : k ≡ 0 + k = omega arith in
    retries-succeed codes bookings confirmation_retries 0 k h (omega arith)
      (subst (λ n. taken bookings (codes n) ≡ false) e free)
