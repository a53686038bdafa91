-- ===== src/Auth/Passwords.antt =====
-- apps/api/src/auth/password.service.ts. `scrypt`, of node:crypto, is a parameter, and so is the
-- salt that randomBytes draws. A buffer is the list of its bytes.
pub mod Hex
pub mod Laws
use hotelsb2b.Common.{
  ℕ, ◌+◌, ◌-◌, ◌*◌, ◌/◌, ◌%◌, Bool, true, false, not, ◌&&◌, ◌||◌, Option, none, some, List, [], ◌∷◌,
  ◌++◌, Text, text_eq, units, ltb, leb, ◌==◌, if◌then◌else◌,
}

abbrev pub dollar : ℕ
dollar = b'$'

-- `buffer.toString('hex')`.
unfoldable pub hex_digit : ℕ → ℕ
hex_digit n = if ltb n 10 then b'0' + n else b'a' + (n - 10)

unfoldable pub to_hex : List ℕ → Text
unfolding hex_digit
to_hex [] = []
to_hex (b ∷ bs) = hex_digit (b / 16) ∷ hex_digit (b % 16) ∷ to_hex bs

unfoldable pub from_digit : ℕ → Option ℕ
from_digit c =
    if leb b'0' c && leb c b'9'
    then some (c - b'0')
    else if leb b'a' c && leb c b'f'
    then some (c - b'a' + 10)
    else if leb b'A' c && leb c b'F'
    then some (c - b'A' + 10)
    else none

abbrev pub byte_of : Option ℕ → Option ℕ → Option ℕ
byte_of (some hi) (some lo) = some (16 * hi + lo)
byte_of _ _ = none

abbrev pub cons_byte : Option ℕ → List ℕ → List ℕ
cons_byte none bs = []
cons_byte (some b) bs = b ∷ bs

-- `Buffer.from(text, 'hex')`, which ends at the first pair that is not one of hexadecimal digits.
unfoldable pub from_hex : Text → List ℕ
unfolding from_digit
from_hex (c ∷ d ∷ s) = cons_byte (byte_of (from_digit c) (from_digit d)) (from_hex s)
from_hex _ = []

abbrev pub push_unit : ℕ → List Text → List Text
push_unit c [] = (c ∷ []) ∷ []
push_unit c (part ∷ parts) = (c ∷ part) ∷ parts

-- `text.split('$')`.
unfoldable pub split : Text → List Text
split [] = [] ∷ []
split (c ∷ s) = if c == dollar then [] ∷ split s else push_unit c (split s)

abbrev pub is_empty : Text → Bool
is_empty [] = true
is_empty (c ∷ s) = false

module _ (scrypt : Text → List ℕ → List ℕ) where
  -- `hash`, with the salt that is drawn.
  unfoldable pub hash_password : List ℕ → Text → Text
  unfolding to_hex
  hash_password salt password =
      units "scrypt" ++ dollar ∷ to_hex salt ++ dollar ∷ to_hex (scrypt password salt)

  -- Past the checks of the format; buffers of one length are compared byte by byte.
  unfoldable pub verify_parts : Text → List Text → Bool
  unfolding from_hex
  verify_parts password (scheme ∷ salt_hex ∷ hash_hex ∷ _) =
      ((text_eq scheme (units "scrypt") && not (is_empty salt_hex)) && not (is_empty hash_hex))
      && text_eq (from_hex hash_hex) (scrypt password (from_hex salt_hex))
  verify_parts password _ = false

  -- `verify`.
  unfoldable pub verify_password : Text → Text → Bool
  unfolding split verify_parts
  verify_password password stored = verify_parts password (split stored)
