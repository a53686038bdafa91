-- ===== src/Redis/Memory.antt =====
-- A store in memory that has the laws of Redis: a function from keys to values with their deadlines.
pub mod Lawful
use hotelsb2b.Common.{
  ℕ, suc, ◌+◌, ◌-◌, ◌*◌, ◌/◌, ◌≤◌, ◌<◌, ◌≡◌, ◌≢◌, refl, sym, ap, ◌∙◌, Bool, true, false, Option,
  none, some, [], ◌∷◌, Text, text_eq, text_eq_refl, text_eq_sound, ltb, arith, ◌==◌, if◌then◌else◌,
  Bool-cases, inl, inr,
}
use hotelsb2b.Redis.{
  Key, avail_ver, avail, idem_res, idem_lock, auth_fail, auth_lock, ai_otp_req, ai_nonce, Value,
  number, Redis, Laws,
}

-- A key as a text.
unfoldable pub code : Key → Text
code (avail_ver p) = 0 ∷ p ∷ []
code (avail q v) = 1 ∷ q.property_id ∷ q.check_in ∷ q.check_out ∷ q.adults ∷ q.children ∷ v ∷ []
code (idem_res t) = 2 ∷ t
code (idem_lock t) = 3 ∷ t
code (auth_fail t) = 4 ∷ t
code (auth_lock t) = 5 ∷ t
code (ai_otp_req b) = 6 ∷ b ∷ []
code (ai_nonce t) = 7 ∷ t

one_field : (ℕ → Key) → Text → Option Key
one_field key (x ∷ []) = some (key x)
one_field key _ = none

query_fields : Text → Option Key
query_fields (p ∷ i ∷ o ∷ a ∷ c ∷ v ∷ []) =
    some
      (avail (record { property_id = p; check_in = i; check_out = o; adults = a; children = c }) v)
query_fields _ = none

decode : Text → Option Key
unfolding one_field query_fields
decode [] = none
decode (tag ∷ t) =
    if tag == 0
    then one_field avail_ver t
    else if tag == 1
    then query_fields t
    else if tag == 2
    then some (idem_res t)
    else if tag == 3
    then some (idem_lock t)
    else if tag == 4
    then some (auth_fail t)
    else if tag == 5
    then some (auth_lock t)
    else if tag == 6
    then one_field ai_otp_req t
    else some (ai_nonce t)

decode-code : (k : Key) → decode (code k) ≡ some k
unfolding decode code
decode-code (avail_ver p) = refl
decode-code (avail q v) = refl
decode-code (idem_res t) = refl
decode-code (idem_lock t) = refl
decode-code (auth_fail t) = refl
decode-code (auth_lock t) = refl
decode-code (ai_otp_req b) = refl
decode-code (ai_nonce t) = refl

some-injective : {k j : Key} → some k ≡ some j → k ≡ j
some-injective h = cc

unfoldable pub key_eq : Key → Key → Bool
key_eq k j = text_eq (code k) (code j)

key_eq_refl : (k : Key) → key_eq k k ≡ true
unfolding key_eq
key_eq_refl k = text_eq_refl (code k)

key_eq_ne : (k j : Key) → k ≢ j → key_eq k j ≡ false
unfolding key_eq
key_eq_ne k j ne = elim (Bool-cases (text_eq (code k) (code j))) [
  | inl e ↦
      absurd (
        ne (some-injective (sym (decode-code k) ∙ ap decode (text_eq_sound _ _ e) ∙ decode-code j)))
  | inr e ↦ e
]

pub record Entry : Type 0 where
  pub value : Value
  pub deadline : Option ℕ

abbrev pub Memory : Type 0
Memory = Key → Option Entry

unfoldable pub put : Memory → Key → Option Entry → Memory
put s k e j = if key_eq k j then e else s j

pub put_self : (s : Memory) (k : Key) (e : Option Entry) → put s k e k ≡ e
unfolding put
put_self s k e = rw (key_eq_refl k) refl

pub put_ne : (s : Memory) (k j : Key) (e : Option Entry) → k ≢ j → put s k e j ≡ s j
unfolding put
put_ne s k j e ne = rw (key_eq_ne k j ne) refl

abbrev pub alive : ℕ → Option ℕ → Bool
alive now none = true
alive now (some d) = ltb now d

abbrev pub read : ℕ → Option Entry → Option Value
read now none = none
read now (some e) = if alive now e.deadline then some e.value else none

abbrev pub after : ℕ → Option ℕ → Option ℕ
after now none = none
after now (some seconds) = some (now + 1000 * seconds)

-- Rounded to the nearest second, as Redis does.
abbrev pub seconds_left : ℕ → Option ℕ → ℕ
seconds_left now none = 0
seconds_left now (some d) = (d - now + 500) / 1000

abbrev pub left : ℕ → Option Entry → ℕ
left now none = 0
left now (some e) = if alive now e.deadline then seconds_left now e.deadline else 0

-- INCR of what is there; of a value that is no number, it is an error that changes nothing.
abbrev pub count_of : Option Value → ℕ
count_of (some (number n)) = suc n
count_of none = 1
count_of _ = 0

abbrev pub counted : Option Value → Option Entry → Option Entry
counted (some (number n)) (some e) = some (record e { value = number (suc n) })
counted none _ = some (record { value = number 1; deadline = none })
counted _ e = e

abbrev pub limited : ℕ → Option Value → Option Entry → ℕ → Option Entry
limited now (some v) e seconds = some (record { value = v; deadline = some (now + 1000 * seconds) })
limited now none e seconds = e

abbrev pub memory : Redis
memory = record {
  Store = Memory;
  get = λ s now k. read now (s k);
  set = λ s now k v t. put s k (some (record { value = v; deadline = after now t }));
  del = λ s k. put s k none;
  incr = λ s now k. (count_of (read now (s k)), put s k (counted (read now (s k)) (s k)));
  expire = λ s now k seconds. put s k (limited now (read now (s k)) (s k) seconds);
  ttl = λ s now k. left now (s k);
}
