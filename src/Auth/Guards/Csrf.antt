-- ===== src/Auth/Guards/Csrf.antt =====
-- What the check of the double-submit token guarantees.
use hotelsb2b.Common.{
  ℕ, ◌≡◌, refl, sym, ap, ◌∙◌, true, false, Option, none, some, List, [], ◌∷◌, Text, text_eq_sound,
  ok, arith,
}
use hotelsb2b.Schema.{Db}
use hotelsb2b.Http.{HttpRequest, truthy}
use hotelsb2b.Auth.Subject.{AuthUser}
use hotelsb2b.Auth.Access.{Jwt, Secrets}
use hotelsb2b.Auth.Scope.{StaffPropertyAccess}
use hotelsb2b.Auth.Guards.Order.{admit_sound}
use hotelsb2b.Auth.Guards.{
  uses_bearer, extract, authenticate_token, authenticate, is_safe_method, csrf_matches, check_csrf,
  Route, admit,
}

abbrev Matching : Option Text → Option Text → Type 0
Matching cookie header =
    (c : Text) × (cookie ≡ some c) × (header ≡ some c) × (truthy (some c) ≡ true)

csrf_matches_sound :
    (cookie header : Option Text) → csrf_matches cookie header ≡ true → Matching cookie header
unfolding csrf_matches
csrf_matches_sound (some (c ∷ cookie)) (some (h ∷ header)) e =
    (c ∷ cookie, refl, ap some (text_eq_sound (h ∷ header) (c ∷ cookie) e), refl)
csrf_matches_sound (some (c ∷ cookie)) (some []) e = absurd cc
csrf_matches_sound (some (c ∷ cookie)) none e = absurd cc
csrf_matches_sound (some []) header e = absurd cc
csrf_matches_sound none header e = absurd cc

extract_cookie :
    (req : HttpRequest) → uses_bearer req ≡ false → extract req ≡ req.cookie_access_token
unfolding extract uses_bearer
extract_cookie req plain = ground arith

authenticate_token-truthy :
    (jwt : Jwt) (secrets : Secrets) (token : Option Text) (now : ℕ) (u : AuthUser)
    → authenticate_token jwt secrets token now ≡ ok (some u)
    → truthy token ≡ true
unfolding authenticate_token
authenticate_token-truthy jwt secrets none now u e = absurd cc
authenticate_token-truthy jwt secrets (some []) now u e = absurd cc
authenticate_token-truthy jwt secrets (some (c ∷ t)) now u e = refl

check_csrf_sound :
    (req : HttpRequest)
    → check_csrf req ≡ ok tt
    → is_safe_method req.method ≡ false
    → uses_bearer req ≡ false
    → truthy req.cookie_access_token ≡ true
    → csrf_matches req.cookie_csrf_token req.x_csrf_token ≡ true
unfolding check_csrf
check_csrf_sound req e unsafe plain cookie = ground arith

-- A request with a method that changes state, and with no bearer header, is let through as that of
-- a user only if its CSRF cookie is there, is not empty, and was repeated in the header.
pub admit-check_csrf :
    (jwt : Jwt) (secrets : Secrets) (db : Db) (grants : List StaffPropertyAccess) (route : Route)
    (req : HttpRequest) (now : ℕ) (u : AuthUser)
    → admit jwt secrets db grants route req now ≡ ok (some u)
    → is_safe_method req.method ≡ false
    → uses_bearer req ≡ false
    → (c : Text) × (req.cookie_csrf_token ≡ some c)
      × (req.x_csrf_token ≡ some c)
      × (truthy (some c) ≡ true)
unfolding admit authenticate
admit-check_csrf jwt secrets db grants route req now u h unsafe plain =
    let passed = admit_sound jwt secrets db grants route req now (some u) h in
    let cookie = authenticate_token-truthy jwt secrets req.cookie_access_token now u (
      ap (λ t. authenticate_token jwt secrets t now) (sym (extract_cookie req plain))
      ∙ passed.authenticated) in
    csrf_matches_sound _ _ (check_csrf_sound req passed.from_site unsafe plain cookie)
