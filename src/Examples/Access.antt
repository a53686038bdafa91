-- ===== src/Examples/Access.antt =====
-- The theorems on one-time codes.
use hotelsb2b.Common.{
  ℕ, ◌≡◌, refl, none, some, List, [], ◌∷◌, Memᴰ, Text, text_eq, find, err, bad_request, arith,
  lt→ltb,
}
use hotelsb2b.Auth.Otp.{OtpCode, OtpDb, login_of, login, find_open, consume}
use hotelsb2b.Auth.Otp.Attempts.{guess_all, AllWrong, IsTried, guess_all-consume}

abbrev plain : Text → Text
plain s = s

abbrev otp : OtpCode
otp = record {
  id = 1;
  purpose = login;
  code_hash = b'1' ∷ [];
  guest_id = some 7;
  booking_id = none;
  destination = [];
  expires_at = 600_000;
  attempts = 3;
  max_attempts = 5;
  consumed_at = none;
}

abbrev codes_db : OtpDb
codes_db = record { next_id = 2; codes = otp ∷ [] }

otp-IsTried : IsTried plain (login_of 7) otp codes_db
unfolding find_open find
otp-IsTried t h = rw (lt→ltb t 600_000 h) refl

-- Two wrong guesses.
abbrev guesses : List (ℕ × Text)
guesses = (10, b'2' ∷ []) ∷ (20, b'3' ∷ []) ∷ []

guesses-AllWrong : AllWrong plain (login_of 7) otp guesses
unfolding text_eq
guesses-AllWrong g (Memᴰ.head e) = rw e (omega arith, refl)
guesses-AllWrong g (Memᴰ.tail (Memᴰ.head e)) = rw e (omega arith, refl)
guesses-AllWrong g (Memᴰ.tail (Memᴰ.tail m)) = elim m [ ]

guess_all-consume_example :
    (consume plain (login_of 7) (b'1' ∷ []) 30 (guess_all plain (login_of 7) guesses codes_db)).0
    ≡ err (bad_request "Too many attempts")
guess_all-consume_example =
    guess_all-consume plain (login_of 7) guesses otp codes_db (b'1' ∷ []) 30 otp-IsTried
      guesses-AllWrong refl (omega arith)
