-- ===== src/Examples/Signing.antt =====
-- A JWT library and a key derivation that have the laws which the theorems want: a token is its
-- deadline, its secret and its object, one after the other.
use hotelsb2b.Common.{
  ℕ, zero, suc, ◌+◌, ◌%◌, ◌/◌, ◌<◌, ◌≡◌, ◌≢◌, refl, sym, ap, ◌∙◌, ◌&&◌, Option, none, some, List,
  [], ◌∷◌, ◌++◌, map, Text, text_eq, text_eq_refl, take, drop, length, arith, ltb, lt→ltb, ◌==◌,
  ==_refl, Bool-cases, inl, inr, if◌then◌else◌,
}
use hotelsb2b.Schema.{front_desk, manager, finance, housekeeping, admin}
use hotelsb2b.Auth.Subject.{Kind, staff_kind, guest_kind, other_kind}
use hotelsb2b.Auth.Access.{Claims, access, booking_action, other_claims, Jwt, JwtLaws}
use hotelsb2b.Auth.Passwords.Hex.{AreBytes}

abbrev kind_code : Kind → ℕ
kind_code guest_kind = 0
kind_code other_kind = 1
kind_code (staff_kind front_desk) = 2
kind_code (staff_kind manager) = 3
kind_code (staff_kind finance) = 4
kind_code (staff_kind housekeeping) = 5
kind_code (staff_kind admin) = 6

abbrev kind_of_code : ℕ → Kind
kind_of_code zero = guest_kind
kind_of_code (suc zero) = other_kind
kind_of_code (suc (suc zero)) = staff_kind front_desk
kind_of_code (suc (suc (suc zero))) = staff_kind manager
kind_of_code (suc (suc (suc (suc zero)))) = staff_kind finance
kind_of_code (suc (suc (suc (suc (suc zero))))) = staff_kind housekeeping
kind_of_code (suc (suc (suc (suc (suc (suc _)))))) = staff_kind admin

kind_of_code-kind_code : (k : Kind) → kind_of_code (kind_code k) ≡ k
kind_of_code-kind_code guest_kind = refl
kind_of_code-kind_code other_kind = refl
kind_of_code-kind_code (staff_kind front_desk) = refl
kind_of_code-kind_code (staff_kind manager) = refl
kind_of_code-kind_code (staff_kind finance) = refl
kind_of_code-kind_code (staff_kind housekeeping) = refl
kind_of_code-kind_code (staff_kind admin) = refl

abbrev number_code : Option ℕ → ℕ
number_code none = 0
number_code (some n) = suc n

abbrev number_of_code : ℕ → Option ℕ
number_of_code zero = none
number_of_code (suc n) = some n

abbrev text_code : Option Text → Text
text_code none = []
text_code (some t) = 0 ∷ t

abbrev text_of_code : Text → Option Text
text_of_code [] = none
text_of_code (_ ∷ t) = some t

abbrev encode : Claims → Text
encode (access p) = 0 ∷ number_code p.sub ∷ kind_code p.kind ∷ text_code p.email
encode (booking_action id) = 1 ∷ id ∷ []
encode other_claims = 2 ∷ []

abbrev decode : Text → Option Claims
decode (zero ∷ n ∷ k ∷ t) =
    some (access (record { sub = number_of_code n; kind = kind_of_code k; email = text_of_code t }))
decode (suc zero ∷ id ∷ []) = some (booking_action id)
decode _ = some other_claims

number_of_code-number_code : (n : Option ℕ) → number_of_code (number_code n) ≡ n
number_of_code-number_code none = refl
number_of_code-number_code (some n) = refl

text_of_code-text_code : (t : Option Text) → text_of_code (text_code t) ≡ t
text_of_code-text_code none = refl
text_of_code-text_code (some t) = refl

decode-encode : (c : Claims) → decode (encode c) ≡ some c
decode-encode (access p) =
    rw
      (
        number_of_code-number_code p.sub,
        kind_of_code-kind_code p.kind,
        text_of_code-text_code p.email,
      )
      refl
decode-encode (booking_action id) = refl
decode-encode other_claims = refl

unfoldable pub read_token : Text → Text → ℕ → Option Claims
read_token (deadline ∷ n ∷ rest) secret now =
    if (ltb (now / 1000) deadline && (n == length secret)) && text_eq (take n rest) secret
    then decode (drop n rest)
    else none
read_token _ secret now = none

abbrev pub plain_jwt : Jwt
plain_jwt = record {
  sign = λ c secret now life. (now / 1000 + life) ∷ length secret ∷ secret ++ encode c;
  verify = λ token secret now. read_token token secret now;
}

take-append : (s t : Text) → take (length s) (s ++ t) ≡ s
take-append [] t = refl
take-append (c ∷ s) t = ap (λ u. c ∷ u) (take-append s t)

drop-append : (s t : Text) → drop (length s) (s ++ t) ≡ t
drop-append [] t = refl
drop-append (c ∷ s) t = drop-append s t

reads :
    (c : Claims) (secret : Text) (now life later : ℕ)
    → later / 1000 < now / 1000 + life
    → read_token ((now / 1000 + life) ∷ length secret ∷ secret ++ encode c) secret later ≡ some c
unfolding read_token
reads c secret now life later h =
    rw
      (
        lt→ltb (later / 1000) (now / 1000 + life) h,
        ==_refl (length secret),
        take-append secret (encode c),
        text_eq_refl secret,
        drop-append secret (encode c),
      )
      (decode-encode c)

reads_only :
    (c d : Claims) (secret other : Text) (now life later : ℕ)
    → read_token ((now / 1000 + life) ∷ length secret ∷ secret ++ encode c) other later ≡ some d
    → d ≡ c
unfolding read_token
reads_only c d secret other now life later h =
    elim (Bool-cases (
      (ltb (later / 1000) (now / 1000 + life) && (length secret == length other))
      && text_eq (take (length secret) (secret ++ encode c)) other)) [
        | inr no_match ↦ absurd (cc (rw no_match at h))
        | inl matched ↦
            let out : decode (drop (length secret) (secret ++ encode c)) ≡ some d =
              rw matched at h in
            let both : some d ≡ some c =
              sym out ∙ ap decode (drop-append secret (encode c)) ∙ decode-encode c in
            cc
      ]

pub plain_jwt-JwtLaws : JwtLaws plain_jwt
plain_jwt-JwtLaws = record {
  verify-sign = reads;
  verify-sign_only = reads_only;
  sign_nonempty = λ c secret now life h. absurd cc;
}

-- The bytes of the password, after a 1.
abbrev pub plain_scrypt : Text → List ℕ → List ℕ
plain_scrypt password salt = 1 ∷ map (λ c. c % 256) password

AreBytes-map : (t : Text) → AreBytes (map (λ c. c % 256) t)
AreBytes-map [] = tt
AreBytes-map (c ∷ t) = (omega arith, AreBytes-map t)

pub plain_scrypt-AreBytes :
    (p : Text) (salt : List ℕ) → AreBytes (plain_scrypt p salt) × (plain_scrypt p salt ≢ [])
plain_scrypt-AreBytes p salt = ((omega arith, AreBytes-map p), λ h. absurd cc)
