-- ===== src/Examples/Phone.antt =====
-- The theorem on the mobile client, at an API whose access token has expired.
use hotelsb2b.Common.{
  ℕ, ◌≡◌, refl, true, Bool, false, none, some, List, [], Text, text_eq, units, length, Option,
  if◌then◌else◌,
}
use hotelsb2b.Auth.Subject.{guest_user}
use hotelsb2b.Mobile.{
  raw_fetch, request_of, given_text, try_refresh, post_form, ApiRequest, ApiResponse, TokenResponse,
  Outcome, value, Device, FetchOptions, Api, api_fetch,
}
use hotelsb2b.Mobile.Retry.{noting}

abbrev reply : ℕ → Text → Option ApiResponse
reply status body = some (record { status = status; message = none; body = body })

abbrev bears : Option Text → Text → Bool
bears none header = false
bears (some t) header = text_eq t header

-- It gives new tokens for any refresh token, and takes only the new access token.
abbrev api : Api (Unit {0})
api req w = (
  if text_eq req.path (units "/auth/refresh")
      then reply 200 (units "new")
      else if bears req.authorization (units "Bearer new")
      then reply 200 (units "bookings")
      else reply 401 [],
  w,
)

abbrev tokens_of : Text → Option TokenResponse
tokens_of body =
    some (record { user = guest_user 5 none; access_token = body; refresh_token = units "r2" })

abbrev mine : FetchOptions
mine = record {
  path = units "/bookings/mine";
  method = none;
  body = none;
  auth = true;
  idempotency_key = none;
}

abbrev phone : Device (Unit {0} × List ApiRequest)
phone = record {
  access_token = some (units "old");
  refresh_token = some (units "r1");
  api = (tt, []);
}

abbrev fetched : Outcome Text × Device (Unit {0} × List ApiRequest)
fetched = api_fetch (noting api) tokens_of mine phone

-- The call is replied to at its second attempt.
fetched_value : fetched.0 ≡ value (units "bookings")
unfolding api_fetch raw_fetch text_eq request_of given_text try_refresh post_form
fetched_value = refl

fetched_three : length fetched.1.api.1 ≡ 3
unfolding api_fetch raw_fetch text_eq request_of given_text try_refresh post_form
fetched_three = refl
