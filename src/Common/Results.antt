-- ===== src/Common/Results.antt =====
-- The result of code that may throw, with the exceptions of the HTTP layer.
use Prim.Native.String.{String}
use mathlib.Core.Path.{◌≡◌, refl}
use mathlib.Core.Logic.{◌⊎◌, inl, inr, ◌↔◌}
use mathlib.Core.Bool.{Bool, true, false}
use mathlib.Core.Option.{Option, none, some}

-- Nest's exceptions with their messages (an interpolated part of a message is left out);
-- `internal` is any other error, which the exception filter answers by 500.
pub data HttpError : Type 0 where
  bad_request unauthorized forbidden not_found conflict unprocessable : String → HttpError
  too_many_requests internal : String → HttpError

pub data Result {ℓ} (A : Type ℓ) : Type ℓ where
  ok : A → Result A
  err : HttpError → Result A

-- `if (!row) throw error;`
abbrev pub or_throw {ℓ} : {A : Type ℓ} → Option A → HttpError → Result A
or_throw none e = err e
or_throw (some a) e = ok a

-- `if (!test) throw error;`
abbrev pub guard : Bool → HttpError → Result (Unit {0})
guard false e = err e
guard true _ = ok tt

-- What follows a throw is not run.
infixl 5 ◌>>=◌ ◌>>◌
abbrev pub ◌>>=◌ {ℓ κ} : {A : Type ℓ} {B : Type κ} → Result A → (A → Result B) → Result B
err e >>= next = err e
ok value >>= next = next value

abbrev pub ◌>>◌ {κ} : {B : Type κ} → Result (Unit {0}) → Result B → Result B
step >> later = step >>= λ _. later

-- To split on a computed result and keep the equation.
pub Result-cases {ℓ} :
    {A : Type ℓ} (r : Result A) → ((e : HttpError) × (r ≡ err e)) ⊎ ((a : A) × (r ≡ ok a))
Result-cases (err e) = inl (e, refl)
Result-cases (ok a) = inr (a, refl)

pub >>=-eq-ok {ℓ κ} :
    {A : Type ℓ} {B : Type κ} {b : B} (r : Result A) (next : A → Result B)
    → r >>= next ≡ ok b
    → (value : A) × (r ≡ ok value) × (next value ≡ ok b)
>>=-eq-ok (err e) next h = absurd cc
>>=-eq-ok (ok value) next h = (value, refl, h)

pub guard-eq-ok {ℓ} :
    {B : Type ℓ} (t : Bool) (e : HttpError) (k : Result B) {b : B}
    → (guard t e >> k) ≡ ok b
    → (t ≡ true) × (k ≡ ok b)
guard-eq-ok true e k h = (refl, h)
guard-eq-ok false e k h = cc

-- A test that ends a function lets through exactly what passes it.
pub guard-ok_iff : (t : Bool) (e : HttpError) → (guard t e ≡ ok tt) ↔ (t ≡ true)
guard-ok_iff true e = (λ h. refl, λ h. refl)
guard-ok_iff false e = (λ h. absurd cc, λ h. absurd cc)

pub or_throw-eq-ok {ℓ κ} :
    {A : Type ℓ} {B : Type κ} (o : Option A) (e : HttpError) (k : A → Result B) {b : B}
    → (or_throw o e >>= k) ≡ ok b
    → (a : A) × (o ≡ some a) × (k a ≡ ok b)
or_throw-eq-ok none e k h = cc
or_throw-eq-ok (some a) e k h = (a, refl, h)

pub ok-injective {ℓ} : {A : Type ℓ} {a b : A} → ok a ≡ ok b → a ≡ b
ok-injective h = cc

pub >>=_assoc {ℓ κ ι} :
    {A : Type ℓ} {B : Type κ} {C : Type ι} (r : Result A) (f : A → Result B) (g : B → Result C)
    → (r >>= f) >>= g ≡ r >>= λ a. f a >>= g
>>=_assoc (err e) f g = refl
>>=_assoc (ok a) f g = refl
