-- ===== src/Auth/Passwords/Hex.antt =====
-- Bytes through hexadecimal digits and back, and a text that is split again.
use hotelsb2b.Common.{
  ℕ, ◌/◌, ◌%◌, ◌<◌, ◌≡◌, refl, ap, false, some, List, [], ◌∷◌, ◌++◌, Text, arith, ◌==◌,
}
use hotelsb2b.Auth.Passwords.{hex_digit, to_hex, from_digit, from_hex, split, dollar}

-- Every element is a byte.
abbrev pub AreBytes : List ℕ → Type 0
AreBytes [] = Unit {0}
AreBytes (b ∷ bs) = (b < 256) × AreBytes bs

from_digit-hex_digit : (n : ℕ) → n < 16 → from_digit (hex_digit n) ≡ some n
unfolding from_digit hex_digit
from_digit-hex_digit n h = ground arith

pub from_hex-to_hex : (bs : List ℕ) → AreBytes bs → from_hex (to_hex bs) ≡ bs
unfolding from_hex to_hex
from_hex-to_hex [] h = refl
from_hex-to_hex (b ∷ bs) (small, rest) =
    let hi = from_digit-hex_digit (b / 16) (omega arith) in
    let lo = from_digit-hex_digit (b % 16) (omega arith) in
    rw (hi, lo, from_hex-to_hex bs rest) (ap (λ n. n ∷ bs) (omega arith))

-- The text has no dollar sign.
abbrev pub IsPlain : Text → Type 0
IsPlain [] = Unit {0}
IsPlain (c ∷ s) = ((c == dollar) ≡ false) × IsPlain s

hex_digit_plain : (n : ℕ) → n < 16 → (hex_digit n == dollar) ≡ false
unfolding hex_digit
hex_digit_plain n h = ground arith

pub to_hex-IsPlain : (bs : List ℕ) → AreBytes bs → IsPlain (to_hex bs)
unfolding to_hex
to_hex-IsPlain [] h = tt
to_hex-IsPlain (b ∷ bs) (small, rest) =
    (hex_digit_plain _ (omega arith), (hex_digit_plain _ (omega arith), to_hex-IsPlain bs rest))

pub split-append : (s t : Text) → IsPlain s → split (s ++ dollar ∷ t) ≡ s ∷ split t
unfolding split
split-append [] t h = refl
split-append (c ∷ s) t (plain, rest) = rw (plain, split-append s t rest) refl

pub split-plain : (s : Text) → IsPlain s → split s ≡ s ∷ []
unfolding split
split-plain [] h = refl
split-plain (c ∷ s) (plain, rest) = rw (plain, split-plain s rest) refl
