-- ===== src/Auth/Controller.antt =====
-- apps/api/src/auth/auth.controller.ts with dto/auth.dto.ts. The bodies have passed the validation of
-- their classes. A response is its body with the cookies that it sets; SameSite is always Lax.
pub mod Browser
pub mod Session
use hotelsb2b.Common.{
  ℕ, ◌*◌, Bool, true, false, Option, none, some, List, [], ◌∷◌, Text, units, Result, ok, err,
  unauthorized, ◌>>=◌,
}
use hotelsb2b.Http.{HttpRequest, truthy}
use hotelsb2b.Redis.{Redis}
use hotelsb2b.Auth.Subject.{AuthUser}
use hotelsb2b.Auth.Access.{or_else}
use hotelsb2b.Auth.Tokens.{RefreshContext}
use hotelsb2b.Auth.Guards.{require_user}
use hotelsb2b.Auth.Service.{AuthResult, Env, Draws, AuthState}
use hotelsb2b.Auth.Service.Accounts.{staff_login, guest_register, guest_login}
use hotelsb2b.Auth.Service.Sessions.{
  guest_otp_request, guest_otp_verify, refresh, logout, request_booking_otp, verify_booking_otp_for,
}

pub data AuthMode : Type 0 where
  cookie bearer : AuthMode

pub record StaffLoginDto : Type 0 where
  pub mode : Option AuthMode
  pub email : Text
  pub password : Text

pub record GuestLoginDto : Type 0 where
  pub mode : Option AuthMode
  pub email : Text
  pub password : Text

pub record GuestRegisterDto : Type 0 where
  pub mode : Option AuthMode
  pub email : Text
  pub password : Text
  pub first_name : Text
  pub last_name : Text

pub record OtpVerifyDto : Type 0 where
  pub mode : Option AuthMode
  pub email : Text
  pub code : Text

-- `ACCESS_MAX_AGE` and `REFRESH_MAX_AGE`.
abbrev pub access_max_age : ℕ
access_max_age = 15 * 60 * 1000

abbrev pub refresh_max_age : ℕ
refresh_max_age = 30 * 24 * 60 * 60 * 1000

pub record Cookie : Type 0 where
  pub name : Text
  pub value : Text
  pub http_only : Bool
  pub secure : Bool
  pub path : Text
  pub max_age : Option ℕ

-- A body has the tokens in bearer mode, and the CSRF token in cookie mode.
pub record Reply : Type 0 where
  pub user : AuthUser
  pub access_token : Option Text
  pub refresh_token : Option Text
  pub csrf_token : Option Text
  pub cookies : List Cookie

abbrev pub context_of : HttpRequest → RefreshContext
context_of req = record { user_agent = req.user_agent; ip_address = req.ip }

-- The cookies of `respond`.
unfoldable pub session_cookies : Bool → Text → AuthResult → List Cookie
session_cookies production csrf result =
    record {
      name = units "access_token";
      value = result.access_token;
      http_only = true;
      secure = production;
      path = units "/";
      max_age = some access_max_age;
    }
    ∷ record {
      name = units "refresh_token";
      value = result.refresh_token;
      http_only = true;
      secure = production;
      path = units "/api/v1/auth";
      max_age = some refresh_max_age;
    }
    ∷ record {
      name = units "csrf_token";
      value = csrf;
      http_only = false;
      secure = production;
      path = units "/";
      max_age = none;
    }
    ∷ []

-- `respond`, with the CSRF token that randomBytes draws.
unfoldable pub respond : Bool → Text → AuthMode → AuthResult → Reply
unfolding session_cookies
respond production csrf bearer result = record {
  user = result.user;
  access_token = some result.access_token;
  refresh_token = some result.refresh_token;
  csrf_token = none;
  cookies = [];
}
respond production csrf cookie result = record {
  user = result.user;
  access_token = none;
  refresh_token = none;
  csrf_token = some csrf;
  cookies = session_cookies production csrf result;
}

-- `mode: AuthMode = 'cookie'`.
abbrev pub mode_or_cookie : Option AuthMode → AuthMode
mode_or_cookie mode = or_else mode cookie

-- `body?.refreshToken ?? req.cookies?.refresh_token`.
abbrev pub presented : Option Text → HttpRequest → Option Text
presented none req = req.cookie_refresh_token
presented (some raw) req = some raw

-- `body?.refreshToken ? 'bearer' : 'cookie'`.
abbrev pub refresh_mode : Option Text → AuthMode
refresh_mode none = cookie
refresh_mode (some []) = cookie
refresh_mode (some (c ∷ cs)) = bearer

-- The names and the paths that `logout` clears.
abbrev pub cleared_cookies : List (Text × Text)
cleared_cookies =
    (units "access_token", units "/")
    ∷ (units "refresh_token", units "/api/v1/auth")
    ∷ (units "csrf_token", units "/")
    ∷ []

-- `me`, behind JwtAuthGuard.
unfoldable pub me : Option AuthUser → Result AuthUser
unfolding require_user
me user = require_user user

module _ (r : Redis) (env : Env) where
  abbrev pub Handler : Type 0
  Handler = AuthState r.Store → Result Reply × AuthState r.Store

  -- `return this.respond(res, result, mode)`.
  abbrev pub answer :
      Text → AuthMode → Result AuthResult × AuthState r.Store → Result Reply × AuthState r.Store
  answer csrf mode (err e, s) = (err e, s)
  answer csrf mode (ok result, s) = (ok (respond env.production csrf mode result), s)

  unfoldable pub post_staff_login : Draws → Text → StaffLoginDto → HttpRequest → ℕ → Handler
  post_staff_login draws csrf dto req now s =
      answer csrf (mode_or_cookie dto.mode)
        (staff_login r env draws dto.email dto.password (context_of req) now s)

  unfoldable pub post_register : Draws → Text → GuestRegisterDto → HttpRequest → ℕ → Handler
  post_register draws csrf dto req now s = answer csrf (mode_or_cookie dto.mode) (
      guest_register r env draws dto.email dto.password dto.first_name dto.last_name
        (context_of req) now s)

  unfoldable pub post_guest_login : Draws → Text → GuestLoginDto → HttpRequest → ℕ → Handler
  post_guest_login draws csrf dto req now s =
      answer csrf (mode_or_cookie dto.mode)
        (guest_login r env draws dto.email dto.password (context_of req) now s)

  unfoldable pub post_otp_request :
      Draws → Text → ℕ → AuthState r.Store → Result (Option Text) × AuthState r.Store
  post_otp_request draws email now s = guest_otp_request r env draws email now s

  unfoldable pub post_otp_verify : Draws → Text → OtpVerifyDto → HttpRequest → ℕ → Handler
  post_otp_verify draws csrf dto req now s =
      answer csrf (mode_or_cookie dto.mode)
        (guest_otp_verify r env draws dto.email dto.code (context_of req) now s)

  -- `if (!raw) throw …`, and the rest of `refresh`.
  unfoldable pub refresh_with : Option Text → AuthMode → Draws → Text → HttpRequest → ℕ → Handler
  refresh_with none mode draws csrf req now s = (err (unauthorized "No refresh token"), s)
  refresh_with (some []) mode draws csrf req now s = (err (unauthorized "No refresh token"), s)
  refresh_with (some (c ∷ cs)) mode draws csrf req now s =
      answer csrf mode (refresh r env draws (c ∷ cs) (context_of req) now s)

  unfoldable pub post_refresh : Draws → Text → Option Text → HttpRequest → ℕ → Handler
  unfolding refresh_with
  post_refresh draws csrf body_token req now s =
      refresh_with (presented body_token req) (refresh_mode body_token) draws csrf req now s

  unfoldable pub post_logout :
      Option Text → HttpRequest → ℕ → AuthState r.Store → List (Text × Text) × AuthState r.Store
  post_logout body_token req now s =
      (cleared_cookies, logout r env (presented body_token req) now s)

  unfoldable pub post_booking_otp_request :
      Draws → ℕ → ℕ → AuthState r.Store → Result (Option Text) × AuthState r.Store
  post_booking_otp_request draws id now s = request_booking_otp r env draws id now s

  unfoldable pub post_booking_otp_verify :
      ℕ → Text → ℕ → AuthState r.Store → Result Text × AuthState r.Store
  post_booking_otp_verify id code now s = verify_booking_otp_for r env id code now s
