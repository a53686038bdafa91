-- ===== src/Examples/Assistant.antt =====
-- The theorems on the assistant's API.
use hotelsb2b.Common.{
  ℕ, ◌*◌, ◌<◌, ◌≡◌, ◌≢◌, refl, true, false, none, some, Option, [], ◌∷◌, Text, text_eq, to_lower,
  to_upper, trim, units, Result, ok, find, arith,
}
use hotelsb2b.Schema.{Guest, Booking, web, confirmed}
use hotelsb2b.Redis.{Redis, set_nx}
use hotelsb2b.Redis.Memory.{memory, put, key_eq, code}
use hotelsb2b.Redis.Memory.Lawful.{memory-Laws}
use hotelsb2b.Schemas.{AiOtpRequest, AiOtpVerify, AiBookingAction, ai_booking_action_schema}
use hotelsb2b.Bookings.Reading.{lookup}
use hotelsb2b.Bookings.Transition.{cancel}
use hotelsb2b.Auth.Otp.{consume, find_open, issue_booking_otp, verify_booking_otp}
use hotelsb2b.Auth.Access.{issue_booking_action_token}
use hotelsb2b.Auth.Service.Sessions.{request_booking_otp, verify_booking_otp_for}
use hotelsb2b.Ai.Webhook.{Webhook, check_webhook, verify_webhook, use_nonce}
use hotelsb2b.Ai.Webhook.Replay.{verify_webhook_once}
use hotelsb2b.Ai.Service.{
  AiState, world_of, with_world, otp_requests_per_booking, request_otp, verify_otp, cancel_booking,
}
use hotelsb2b.Ai.Service.Verified.{IsProof, cancel_booking-verify_otp}
use hotelsb2b.Ai.Service.Quota.{Counted}
use hotelsb2b.Ai.Service.OnFile.{IsSentOnFile, request_otp_sound}
use hotelsb2b.Examples.{hotel, at_january}
use hotelsb2b.Examples.Accounts.{env, draws_of, start}
use hotelsb2b.Examples.Signing.{plain_jwt, plain_jwt-JwtLaws}

-- A timestamp of one unit, in seconds.
abbrev seconds : Text → Option ℕ
seconds (c ∷ []) = some (1000 * c)
seconds _ = none

abbrev plain_hmac : Text → Text → Text
plain_hmac secret message = message

-- A call whose timestamp is 400 seconds.
abbrev hook : Webhook
hook = record {
  x_ai_signature = some (400 ∷ b'.' ∷ b'b' ∷ []);
  x_ai_timestamp = some (400 ∷ []);
  raw_body = some (b'b' ∷ []);
}

abbrev hook_secret : Option Text
hook_secret = some (units "k")

abbrev unused : Redis.Store memory
unused = λ k. none

abbrev first_call : Result (Unit {0}) × Redis.Store memory
first_call = verify_webhook seconds plain_hmac memory hook_secret hook 100_000 unused

let_in : first_call.0 ≡ ok tt
unfolding verify_webhook check_webhook text_eq use_nonce set_nx
let_in = refl

verify_webhook_once_example :
    (verify_webhook seconds plain_hmac memory hook_secret hook 100_001 first_call.1).0 ≢ ok tt
verify_webhook_once_example =
    verify_webhook_once seconds plain_hmac hook_secret hook memory memory-Laws 100_000 100_001
      unused first_call.1 let_in (λ k h. refl) (omega arith) (omega arith)

abbrev visitor : Guest
visitor = record {
  id = 70;
  first_name = units "A";
  last_name = units "Bo";
  email = some (units "v@h");
  phone = none;
  is_account = false;
  password_hash = none;
}

abbrev visit : Booking
visit = record {
  id = 80;
  confirmation_code = units "CODE";
  property_id = 1;
  status = confirmed;
  channel = web;
  primary_guest_id = 70;
  created_by_user_id = none;
  check_in = at_january 11;
  check_out = at_january 13;
  adults = 2;
  children = 0;
  rooms_count = 0;
  currency = [];
  subtotal_minor = 0;
  total_minor = 0;
  special_requests = none;
  cancelled_at = none;
  cancel_reason = none;
}

abbrev desk : AiState (Redis.Store memory)
desk = record {
  auth = record start { db = record hotel { guests = visitor ∷ []; bookings = visit ∷ [] } };
  queue = [];
}

abbrev asks : AiOtpRequest
asks = record { confirmation_code = units "code"; last_name = units "BO" }

abbrev asked : Result (ℕ × Option Text) × AiState (Redis.Store memory)
asked = request_otp memory env (draws_of []) asks 100 desk

did_ask : asked.0 ≡ ok (80, none)
unfolding request_otp lookup find text_eq to_lower to_upper trim request_booking_otp
    issue_booking_otp put key_eq code
did_ask = refl

request_otp_sound_example :
    (b : Booking) × (lookup desk.auth.db (units "code") (units "BO") ≡ ok b)
    × (b.id ≡ 80)
    × (0 < otp_requests_per_booking)
    × Counted memory desk.auth.store asked.1.auth.store 100 80 0
    × IsSentOnFile (units "123456") 100 80 desk.auth.db desk.auth.codes asked.1.auth.codes
request_otp_sound_example =
    request_otp_sound memory env memory-Laws (draws_of []) asks 100 desk 80 0 none refl did_ask

abbrev names_code : AiOtpVerify
names_code = record { booking_id = 80; code = units "123456" }

abbrev call : AiBookingAction
call = record {
  verification_token = issue_booking_action_token plain_jwt env.secrets 80 200;
  reason = none;
}

verified : (verify_otp memory env names_code 200 asked.1).0 ≡ ok call.verification_token
unfolding verify_otp request_otp lookup find text_eq to_lower to_upper trim request_booking_otp
    issue_booking_otp put key_eq code verify_booking_otp_for verify_booking_otp consume find_open
verified = refl

in_limits : ai_booking_action_schema call ≡ true
unfolding ai_booking_action_schema issue_booking_action_token
in_limits = refl

cancel_booking-verify_otp_example :
    IsProof (λ t. t) 80 (units "123456") 200 asked.1.auth.codes
    × (cancel_booking memory env true call 300 desk ≡ (
      (cancel memory true 300 (world_of desk) 80 none).0,
      with_world desk (cancel memory true 300 (world_of desk) 80 none).1,
    ))
cancel_booking-verify_otp_example =
    cancel_booking-verify_otp memory env plain_jwt-JwtLaws names_code call true 200 300 asked.1 desk
      verified in_limits (omega arith)
