-- ===== src/Mobile/Retry.antt =====
-- What one call of the client sends.
use hotelsb2b.Common.{
  Bool, false, ◌≡◌, true, ◌&&◌, Option, none, some, List, ◌∷◌, Text, units, ◌==◌,
}
use hotelsb2b.Mobile.{
  ApiRequest, ApiResponse, Device, FetchOptions, Api, given_text, request_of, post_form,
  refresh_form,
}

-- An API that notes the requests that it gets, the newest first.
abbrev pub noting : {W : Type 0} → Api W → Api (W × List ApiRequest)
noting api req x = let out = api req x.0 in (out.0, (out.1, req ∷ x.1))

-- The request that a device makes for a call, and the one for new tokens.
abbrev pub asks : {W : Type 0} → FetchOptions → Device W → ApiRequest
asks opts d = request_of opts d.access_token opts.auth

abbrev pub refreshes : Text → ApiRequest
refreshes t = post_form (units "/auth/refresh") (refresh_form t)

-- The reply to the first request of a call, if it gets one, and whether it asks for new tokens.
abbrev pub first_reply :
    {W : Type 0} → Api W → FetchOptions → Device (W × List ApiRequest) → Option ApiResponse
first_reply api opts d = (api (asks opts d) d.api.0).0

abbrev pub is_unauthorized : Option ApiResponse → Bool
is_unauthorized none = false
is_unauthorized (some res) = res.status == 401

-- The requests of one call: the request, where it is not a call with a token that is replied to with
-- 401 while the device has a refresh token; else a refresh after it that has failed; or a refresh and
-- the request once more, now with the token that the device has at the end.
pub data Sent {W : Type 0} (api : Api W) (opts : FetchOptions) (d d' : Device (W × List ApiRequest))
    : Type 0 where
  once :
      ((is_unauthorized (first_reply api opts d) && opts.auth) ≡ true
        → given_text d.refresh_token ≡ none)
      → d'.api.1 ≡ asks opts d ∷ d.api.1
      → d'.access_token ≡ d.access_token
      → d'.refresh_token ≡ d.refresh_token
      → Sent api opts d d'
  dropped :
      (t : Text)
      → given_text d.refresh_token ≡ some t
      → opts.auth ≡ true
      → is_unauthorized (first_reply api opts d) ≡ true
      → d'.api.1 ≡ refreshes t ∷ asks opts d ∷ d.api.1
      → Sent api opts d d'
  retried :
      (t : Text)
      → given_text d.refresh_token ≡ some t
      → opts.auth ≡ true
      → is_unauthorized (first_reply api opts d) ≡ true
      → d'.api.1 ≡ asks opts d' ∷ refreshes t ∷ asks opts d ∷ d.api.1
      → Sent api opts d d'
