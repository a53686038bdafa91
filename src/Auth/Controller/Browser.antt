-- ===== src/Auth/Controller/Browser.antt =====
-- `browserFetch` of apps/web/lib/api.ts, in a browser that has the cookies of a reply. The encoding
-- of a value by Express and its decoding by cookie-parser are parameters, and so is which cookies the
-- browser sends with a request to a path.
use hotelsb2b.Common.{
  ℕ, Bool, true, false, not, ◌&&◌, ◌||◌, ◌≡◌, refl, sym, ap, ◌∙◌, ==_iff, Option, none, some, List,
  [], ◌∷◌, ◌++◌, Text, text_eq, units, find, select, all, leb, ◌==◌, if◌then◌else◌, arith,
  Bool-cases, inl, inr,
}
use mathlib.Core.Bool.{and-eq-true_iff}
use hotelsb2b.Http.{HttpRequest}
use hotelsb2b.Auth.Guards.{starts_with}
use hotelsb2b.Auth.Controller.{Cookie}

pub record Browser : Type 0 where
  pub encode : Text → Text
  pub decode : Text → Text
  pub sends : Cookie → Text → Bool

-- The letters of base64url.
abbrev pub is_base64url : ℕ → Bool
is_base64url c =
    (leb b'a' c && leb c b'z')
    || (leb b'A' c && leb c b'Z')
    || (leb b'0' c && leb c b'9')
    || (c == b'-')
    || (c == b'_')

-- What is documented: a value is decoded to what was encoded, encodeURIComponent keeps letters,
-- digits, `-` and `_`, and a cookie of the path `/` is sent with every request.
pub record BrowserLaws (b : Browser) : Type 0 where
  pub decode-encode : (t : Text) → b.decode (b.encode t) ≡ t
  pub encode_plain : (t : Text) → all is_base64url t ≡ true → b.encode t ≡ t
  pub sends_root :
      (c : Cookie) (path : Text) → text_eq c.path (units "/") ≡ true → b.sends c path ≡ true

abbrev pub put_first : ℕ → List Text → List Text
put_first c [] = (c ∷ []) ∷ []
put_first c (s ∷ ss) = (c ∷ s) ∷ ss

-- `split('; ')`.
unfoldable pub split_cookies : Text → List Text
split_cookies [] = [] ∷ []
split_cookies (c ∷ []) = (c ∷ []) ∷ []
split_cookies (c ∷ d ∷ s) =
    let rest = split_cookies (d ∷ s) in
    let later = split_cookies s in
    if (c == b';') && (d == b' ') then [] ∷ later else put_first c rest

unfoldable pub up_to_equals : Text → Text
up_to_equals [] = []
up_to_equals (c ∷ s) = let rest = up_to_equals s in if c == b'=' then [] else c ∷ rest

-- `split('=')[1]`.
unfoldable pub second_part : Text → Option Text
unfolding up_to_equals
second_part [] = none
second_part (c ∷ s) =
    let later = second_part s in if c == b'=' then some (up_to_equals s) else later

-- `.find((c) => c.startsWith('csrf_token='))?.split('=')[1]`.
unfoldable pub csrf_of_parts : List Text → Option Text
unfolding second_part starts_with
csrf_of_parts parts = elim (find (starts_with (units "csrf_token=")) parts) [
  | none ↦ none
  | some c ↦ second_part c
]

-- `csrfToken`, for the text of `document.cookie`.
unfoldable pub csrf_token : Text → Option Text
unfolding split_cookies csrf_of_parts
csrf_token cookie_text = csrf_of_parts (split_cookies cookie_text)

abbrev pub join_cookies : List Text → Text
join_cookies [] = []
join_cookies (s ∷ []) = s
join_cookies (s ∷ t ∷ ss) = s ++ b';' ∷ b' ' ∷ join_cookies (t ∷ ss)

abbrev pub as_pairs : (Text → Text) → List Cookie → List Text
as_pairs encode [] = []
as_pairs encode (c ∷ cs) = (c.name ++ b'=' ∷ encode c.value) ∷ as_pairs encode cs

-- `if (token)`.
abbrev pub header_of : Option Text → Option Text
header_of (some (c ∷ t)) = some (c ∷ t)
header_of _ = none

module _ (b : Browser) where
  -- `document.cookie`: the cookies that scripts may read.
  unfoldable pub document_cookie : List Cookie → Text
  document_cookie cookies =
      join_cookies (as_pairs b.encode (select (λ (c : Cookie). not c.http_only) cookies))

  -- What cookie-parser reads of a cookie that the browser sends.
  unfoldable pub cookie_read : Text → List Cookie → Text → Option Text
  cookie_read name cookies path =
      elim (find (λ (c : Cookie). text_eq c.name name && b.sends c path) cookies) [
        | none ↦ none
        | some c ↦ some (b.decode (b.encode c.value))
      ]

  -- The request of `browserFetch`, with `opts.method` or `GET` for its method.
  unfoldable pub browser_fetch : List Cookie → Text → Text → HttpRequest
  unfolding csrf_token document_cookie cookie_read
  browser_fetch cookies path method = record {
    method = method;
    authorization = none;
    x_csrf_token =
        if text_eq method (units "GET")
        then none
        else header_of (csrf_token (document_cookie cookies));
    x_channel = none;
    user_agent = none;
    cookie_access_token = cookie_read (units "access_token") cookies path;
    cookie_refresh_token = cookie_read (units "refresh_token") cookies path;
    cookie_csrf_token = cookie_read (units "csrf_token") cookies path;
    id = none;
    ip = none;
  }

all_mono :
    (p q : ℕ → Bool)
    → ((c : ℕ) → p c ≡ true → q c ≡ true)
    → (s : Text) → all p s ≡ true
    → all q s ≡ true
unfolding all
all_mono p q f [] h = refl
all_mono p q f (c ∷ s) h =
    let (here, later) = (and-eq-true_iff (p c) (all p s)).0 h in
    (and-eq-true_iff (q c) (all q s)).1 (f c here, all_mono p q f s later)

abbrev pub is_not : ℕ → ℕ → Bool
is_not d c = not (c == d)

is_not-eq : (d c : ℕ) → is_not d c ≡ true → (c == d) ≡ false
is_not-eq d c h = ground arith

pub split_cookies_single :
    (c : ℕ) (s : Text) → all (is_not b';') (c ∷ s) ≡ true → split_cookies (c ∷ s) ≡ (c ∷ s) ∷ []
unfolding split_cookies all
split_cookies_single c [] h = refl
split_cookies_single c (d ∷ s) h =
    let (here, later) = (and-eq-true_iff (is_not b';' c) (all (is_not b';') (d ∷ s))).0 h in
    rw (is_not-eq b';' c here, split_cookies_single d s later) refl

pub up_to_equals_plain : (s : Text) → all (is_not b'=') s ≡ true → up_to_equals s ≡ s
unfolding up_to_equals all
up_to_equals_plain [] h = refl
up_to_equals_plain (c ∷ s) h =
    let (here, later) = (and-eq-true_iff (is_not b'=' c) (all (is_not b'=') s)).0 h in
    rw (is_not-eq b'=' c here, up_to_equals_plain s later) refl

is_base64url-is_not :
    (d : ℕ) → (c : ℕ) → is_base64url d ≡ false → is_base64url c ≡ true → is_not d c ≡ true
is_base64url-is_not d c out inside = elim (Bool-cases (c == d)) [
  | inl same ↦ absurd (cc (sym out ∙ ap is_base64url (sym ((==_iff c d).0 same)) ∙ inside))
  | inr other ↦ rw other refl
]

-- A token of base64url in a cookie that scripts may read is what `csrfToken` finds.
pub csrf_token_lem :
    (csrf : Text)
    → all is_base64url csrf ≡ true
    → csrf_token (units "csrf_token=" ++ csrf) ≡ some csrf
unfolding csrf_token find starts_with all second_part
csrf_token_lem csrf h =
    let plain = λ (d : ℕ) (out : is_base64url d ≡ false).
      all_mono is_base64url (is_not d) (λ c. is_base64url-is_not d c out) csrf h in
    ap csrf_of_parts (split_cookies_single b'c' (units "srf_token=" ++ csrf) (plain b';' refl))
    ∙ ap some (up_to_equals_plain csrf (plain b'=' refl))
