-- ===== src/Mobile.antt =====
-- apps/mobile/lib/api.ts, with the token store of apps/mobile/lib/tokens.ts. The API at the other
-- end is a parameter: its reply to a request, or the failure of the network, and what it becomes.
-- `tokens_of` reads the body of a reply; a body without tokens makes the store of tokens fail. Paths
-- are relative to the base of the API.
pub mod Retry
use hotelsb2b.Common.{
  ℕ, Bool, true, false, ◌&&◌, Option, none, some, [], ◌∷◌, ◌++◌, Text, units, leb, ◌==◌,
  if◌then◌else◌,
}
use hotelsb2b.Auth.Subject.{AuthUser}

-- What the client sends as JSON; `other_body` is a text that the caller has made.
pub data JsonBody : Type 0 where
  refresh_form : Text → JsonBody
  login_form : Text → Text → JsonBody
  register_form : Text → Text → Text → Text → JsonBody
  other_body : Text → JsonBody

-- The request that `fetch` makes, with the headers that depend on the call.
pub record ApiRequest : Type 0 where
  pub path : Text
  pub method : Text
  pub body : Option JsonBody
  pub authorization : Option Text
  pub idempotency_key : Option Text

-- A reply, with the `message` of its body, if it has one.
pub record ApiResponse : Type 0 where
  pub status : ℕ
  pub message : Option Text
  pub body : Text

-- `TokenResponse`.
pub record TokenResponse : Type 0 where
  pub user : AuthUser
  pub access_token : Text
  pub refresh_token : Text

-- How a promise ends: with a value, with an ApiError, or with another error.
pub data Outcome (A : Type 0) : Type 0 where
  value : A → Outcome A
  api_error : ℕ → Option Text → Outcome A
  rejected : Outcome A

-- The tokens of the store, and the API.
pub record Device (W : Type 0) : Type 0 where
  pub access_token : Option Text
  pub refresh_token : Option Text
  pub api : W

-- The arguments of `apiFetch`.
pub record FetchOptions : Type 0 where
  pub path : Text
  pub method : Option Text
  pub body : Option JsonBody
  pub auth : Bool
  pub idempotency_key : Option Text

abbrev pub Api : Type 0 → Type 0
Api W = ApiRequest → W → Option ApiResponse × W

-- A text that is missing or empty is left out.
unfoldable pub given_text : Option Text → Option Text
given_text (some (c ∷ t)) = some (c ∷ t)
given_text _ = none

unfoldable pub bearer : Option Text → Option Text
unfolding given_text
bearer token = elim (given_text token) [ none ↦ none | some t ↦ some (units "Bearer " ++ t) ]

-- `res.ok`.
abbrev pub is_ok : ApiResponse → Bool
is_ok res = leb 200 res.status && leb res.status 299

-- `parse`.
unfoldable pub parse_response : ApiResponse → Outcome Text
parse_response res = if is_ok res then value res.body else api_error res.status res.message

-- `opts.method ?? 'GET'`.
abbrev pub method_or_get : Option Text → Text
method_or_get none = units "GET"
method_or_get (some m) = m

-- The request of `apiFetch`, with the token that the device has.
unfoldable pub request_of : FetchOptions → Option Text → Bool → ApiRequest
unfolding bearer
request_of opts token with_auth = record {
  path = opts.path;
  method = method_or_get opts.method;
  body = opts.body;
  authorization = if with_auth then bearer token else none;
  idempotency_key = given_text opts.idempotency_key;
}

-- A request without token and key: `{ method: 'POST', body }`.
unfoldable pub post_form : Text → JsonBody → ApiRequest
post_form path form = record {
  path = path;
  method = units "POST";
  body = some form;
  authorization = none;
  idempotency_key = none;
}

abbrev pub set_tokens : {W : Type 0} → TokenResponse → Device W → Device W
set_tokens t d = record d {
  access_token = some t.access_token;
  refresh_token = some t.refresh_token;
}

abbrev pub clear_tokens : {W : Type 0} → Device W → Device W
clear_tokens d = record d { access_token = none; refresh_token = none }

module _ {W : Type 0} (api : Api W) where
  -- `rawFetch`.
  unfoldable pub raw_fetch : ApiRequest → Device W → Option ApiResponse × Device W
  raw_fetch req d = let out = api req d.api in (out.0, record d { api = out.1 })

module _ {W : Type 0} (api : Api W) (tokens_of : Text → Option TokenResponse) where
  -- The reply to a refresh: whether the tokens are new, or `none` for an error.
  unfoldable pub take_refreshed : Option ApiResponse → Device W → Option Bool × Device W
  take_refreshed none d = (none, d)
  take_refreshed (some res) d =
      if is_ok res
      then elim (tokens_of res.body) [ none ↦ (none, d) | some t ↦ (some true, set_tokens t d) ]
      else (some false, clear_tokens d)

  -- `tryRefresh`.
  unfoldable pub try_refresh : Device W → Option Bool × Device W
  unfolding raw_fetch take_refreshed given_text
  try_refresh d = elim (given_text d.refresh_token) [
    | none ↦ (some false, d)
    | some t ↦
        let out = raw_fetch api (post_form (units "/auth/refresh") (refresh_form t)) d in
        take_refreshed out.0 out.1
  ]

  abbrev pub parse_reply : Option ApiResponse → Outcome Text
  parse_reply none = rejected
  parse_reply (some res) = parse_response res

  -- `if (refreshed) res = await rawFetch(…)` and the end, for the first reply `res`.
  unfoldable pub after_refresh :
      FetchOptions → ApiResponse → Option Bool × Device W → Outcome Text × Device W
  unfolding raw_fetch parse_response
  after_refresh opts res (none, d) = (rejected, d)
  after_refresh opts res (some false, d) = (parse_response res, d)
  after_refresh opts res (some true, d) =
      let out = raw_fetch api (request_of opts d.access_token true) d in (parse_reply out.0, out.1)

  unfoldable pub after_first :
      FetchOptions → Option ApiResponse × Device W → Outcome Text × Device W
  unfolding try_refresh after_refresh
  after_first opts (none, d) = (rejected, d)
  after_first opts (some res, d) =
      if (res.status == 401) && opts.auth
      then after_refresh opts res (try_refresh d)
      else (parse_response res, d)

  -- `apiFetch`.
  unfoldable pub api_fetch : FetchOptions → Device W → Outcome Text × Device W
  unfolding after_first
  api_fetch opts d = after_first opts (raw_fetch api (request_of opts d.access_token opts.auth) d)

  -- What `login` and `register` do with the reply.
  unfoldable pub take_tokens : Option ApiResponse × Device W → Outcome AuthUser × Device W
  take_tokens (none, d) = (rejected, d)
  take_tokens (some res, d) =
      if is_ok res
      then elim (tokens_of res.body) [
        | none ↦ (rejected, d)
        | some t ↦ (value t.user, set_tokens t d)
      ]
      else (api_error res.status res.message, d)

  unfoldable pub client_login : Text → Text → Device W → Outcome AuthUser × Device W
  unfolding raw_fetch take_tokens
  client_login email password d =
      take_tokens (raw_fetch api (post_form (units "/auth/login") (login_form email password)) d)

  unfoldable pub client_register :
      Text → Text → Text → Text → Device W → Outcome AuthUser × Device W
  unfolding raw_fetch take_tokens
  client_register email password first_name last_name d = take_tokens (
      raw_fetch api
        (post_form (units "/auth/register") (register_form email password first_name last_name)) d)

  -- `logout`: an error of its request is swallowed.
  unfoldable pub client_logout : Device W → Device W
  unfolding raw_fetch given_text
  client_logout d = elim (given_text d.refresh_token) [
    | none ↦ clear_tokens d
    | some t ↦ clear_tokens (raw_fetch api (post_form (units "/auth/logout") (refresh_form t)) d).1
  ]
