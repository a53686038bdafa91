-- ===== src/Examples/Accounts.antt =====
-- The theorems on logins, sessions and guards, at a small hotel with one clerk.
use hotelsb2b.Common.{
  ℕ, ◌≡◌, ◌≢◌, ◌↔◌, refl, true, false, none, some, List, [], ◌∷◌, Text, text_eq, to_lower, units,
  ok, err, too_many_requests, find, all, select, any, arith, ◌>>◌,
}
use hotelsb2b.Schema.{front_desk}
use hotelsb2b.Http.{HttpRequest, truthy}
use hotelsb2b.Redis.{Redis}
use hotelsb2b.Redis.Memory.{memory, put, key_eq, code}
use hotelsb2b.Redis.Memory.Lawful.{memory-Laws}
use hotelsb2b.Auth.Subject.{User, staff_user}
use hotelsb2b.Auth.Tokens.{RefreshContext, issue_refresh_token}
use hotelsb2b.Auth.Lockout.{assert_not_locked, record_failure, start_window, lock_out}
use hotelsb2b.Auth.Passwords.{hash_password, verify_password, to_hex, from_hex, split, verify_parts}
use hotelsb2b.Auth.Passwords.Laws.{verify_password-hash_password}
use hotelsb2b.Auth.Access.{
  issue_access_token, verify_booking_action_token, issue_booking_action_token, verify_access_token,
}
use hotelsb2b.Auth.Scope.{StaffPropertyAccess, property, can_activate}
use hotelsb2b.Auth.Guards.{
  extract, Route, admit, authenticate, is_safe_method, uses_bearer, check_roles,
}
use hotelsb2b.Auth.Guards.Csrf.{admit-check_csrf}
use hotelsb2b.Auth.Guards.Sessions.{authenticate-issue_booking_action_token}
use hotelsb2b.Auth.Service.{
  AuthResult, Env, Draws, AuthState, find_user, passes_staff, issue, fail_login, audit,
}
use hotelsb2b.Auth.Service.Accounts.{staff_login, accept_staff}
use hotelsb2b.Auth.Service.Sessions.{refresh}
use hotelsb2b.Auth.Service.Brute.{Attempt, try_staff, after, AllRefused, after-try_staff}
use hotelsb2b.Auth.Service.Login.{IsStaffLogin}
use hotelsb2b.Auth.Controller.{Reply, StaffLoginDto, cookie, post_staff_login, respond}
use hotelsb2b.Auth.Controller.Browser.{
  Browser, BrowserLaws, is_base64url, browser_fetch, split_cookies, document_cookie, csrf_of_parts,
}
use hotelsb2b.Auth.Controller.Session.{admit-post_staff_login}
use hotelsb2b.Examples.{hotel}
use hotelsb2b.Examples.Signing.{
  plain_jwt, plain_jwt-JwtLaws, plain_scrypt, plain_scrypt-AreBytes, read_token,
}

abbrev pub env : Env
env = record {
  sha256 = λ t. t;
  scrypt = plain_scrypt;
  jwt = plain_jwt;
  secrets = record { jwt_access_secret = some (units "s"); jwt_booking_secret = none };
  production = true;
}

abbrev pub draws_of : Text → Draws
draws_of refresh = record {
  refresh = refresh;
  family = 3;
  salt = 9 ∷ 7 ∷ [];
  code = units "123456";
}

abbrev pub ctx : RefreshContext
ctx = record { user_agent = none; ip_address = none }

abbrev clerk : User
clerk = record {
  id = 4;
  email = units "a@h";
  password_hash = hash_password plain_scrypt (9 ∷ []) (units "pw");
  role = front_desk;
  active = true;
  last_login_at = none;
}

abbrev pub start : AuthState (Redis.Store memory)
start = record {
  store = λ k. none;
  db = hotel;
  users = clerk ∷ [];
  codes = record { next_id = 1; codes = [] };
  tokens = record { next_id = 1; tokens = [] };
  log = [];
}

-- A wrong password for the clerk, in upper case.
abbrev wrong : ℕ → Attempt
wrong now = record { now = now; password = units "no"; draws = draws_of (units "r"); ctx = ctx }

abbrev guesses : List Attempt
guesses = wrong 10 ∷ wrong 20 ∷ wrong 30 ∷ wrong 40 ∷ wrong 50 ∷ []

refused : AllRefused memory env (units "A@H") start guesses
unfolding staff_login find_user passes_staff verify_password hash_password to_hex from_hex split
    verify_parts find text_eq assert_not_locked fail_login record_failure audit put key_eq code
    start_window lock_out to_lower
refused = (refl, (refl, (refl, (refl, (refl, tt)))))

after-try_staff_example :
    try_staff memory env
      (units "A@H")
      (after memory env (units "A@H") start guesses)
      (record (wrong 60) { password = units "pw" })
    ≡ (err (too_many_requests "Too many attempts"), after memory env (units "A@H") start guesses)
after-try_staff_example =
    after-try_staff memory env memory-Laws (units "A@H") start (wrong 10) (wrong 20) (wrong 30)
      (wrong 40) (wrong 50) (record (wrong 60) { password = units "pw" }) refl (omega arith)
      (omega arith) (omega arith) (omega arith) (omega arith) (omega arith) (omega arith) refused

-- The clerk logs in.
abbrev login_form : StaffLoginDto
login_form = record { mode = none; email = units "A@H"; password = units "pw" }

abbrev pub anonymous_request : HttpRequest
anonymous_request = record {
  method = units "POST";
  authorization = none;
  x_csrf_token = none;
  x_channel = none;
  user_agent = none;
  cookie_access_token = none;
  cookie_refresh_token = none;
  cookie_csrf_token = none;
  id = none;
  ip = none;
}

abbrev logged_in : AuthResult
logged_in = record {
  user = staff_user 4 (units "a@h") front_desk;
  access_token =
      issue_access_token plain_jwt env.secrets (staff_user 4 (units "a@h") front_desk) 100;
  refresh_token = units "r";
}

abbrev reply : Reply
reply = respond true (units "x") cookie logged_in

replied :
    (post_staff_login memory env
      (draws_of (units "r"))
      (units "x")
      login_form
      anonymous_request
      100
      start).0
    ≡ ok reply
unfolding post_staff_login staff_login find_user passes_staff verify_password hash_password to_hex
    from_hex split verify_parts find text_eq assert_not_locked accept_staff audit issue
    issue_refresh_token any to_lower
replied = refl

abbrev desk : Route
desk = record { roles = front_desk ∷ []; scope = some property; id = some 1 }

abbrev pub grants : List StaffPropertyAccess
grants = record { user_id = 4; property_id = 1 } ∷ []

-- A browser that sends the cookies of the path `/`.
abbrev plain_browser : Browser
plain_browser = record {
  encode = λ t. t;
  decode = λ t. t;
  sends = λ c path. text_eq c.path (units "/");
}

plain_browser-BrowserLaws : BrowserLaws plain_browser
plain_browser-BrowserLaws = record {
  decode-encode = λ t. refl;
  encode_plain = λ t h. refl;
  sends_root = λ c path h. h;
}

in_base64url : all is_base64url (units "x") ≡ true
unfolding all
in_base64url = refl

admit-post_staff_login_example :
    (a : AuthResult) × IsStaffLogin memory env (units "A@H") (units "pw") 100 start a
    × (reply.user ≡ a.user)
    × (reply.access_token ≡ none)
    × (reply.refresh_token ≡ none)
    × (admit plain_jwt env.secrets hotel grants desk
          (browser_fetch plain_browser reply.cookies (units "/api/v1") (units "POST"))
          200
        ≡ (check_roles (front_desk ∷ []) (some a.user)
            >> (can_activate hotel grants (some property) (some a.user) (some 1)
                >> ok (some a.user))))
admit-post_staff_login_example =
    admit-post_staff_login memory env plain_jwt-JwtLaws plain_browser plain_browser-BrowserLaws
      hotel grants desk (draws_of (units "r")) (units "x") (units "/api/v1") (units "POST")
      login_form anonymous_request 100 200 start reply refl (λ h. cc) in_base64url replied
      (omega arith)

-- A request of the clerk's browser.
abbrev cookie_request : HttpRequest
cookie_request = browser_fetch plain_browser reply.cookies (units "/api/v1") (units "POST")

admitted :
    admit plain_jwt env.secrets hotel grants desk cookie_request 200
    ≡ ok (some (staff_user 4 (units "a@h") front_desk))
unfolding admit authenticate browser_fetch document_cookie split_cookies csrf_of_parts select find
    respond text_eq issue_access_token verify_access_token read_token any can_activate
admitted = refl

admit-check_csrf_example :
    (c : Text) × (cookie_request.cookie_csrf_token ≡ some c)
    × (cookie_request.x_csrf_token ≡ some c)
    × (truthy (some c) ≡ true)
unfolding is_safe_method text_eq browser_fetch uses_bearer
admit-check_csrf_example =
    admit-check_csrf plain_jwt env.secrets hotel grants desk cookie_request 200
      (staff_user 4 (units "a@h") front_desk) admitted unsafe plain
  where
    unsafe : is_safe_method cookie_request.method ≡ false
    unsafe = refl

    plain : uses_bearer cookie_request ≡ false
    plain = refl

-- A booking-action token where an access token belongs: in its cookie.
abbrev action_request : HttpRequest
action_request = record anonymous_request {
  cookie_access_token = some (issue_booking_action_token plain_jwt env.secrets 80 100);
}

authenticate-issue_booking_action_token_example :
    (verify_booking_action_token plain_jwt env.secrets
        (issue_booking_action_token plain_jwt env.secrets 80 100)
        200
      ≡ ok 80)
    × (authenticate plain_jwt env.secrets action_request 300 ≢ ok none)
unfolding extract
authenticate-issue_booking_action_token_example =
    authenticate-issue_booking_action_token plain_jwt plain_jwt-JwtLaws env.secrets 80
      action_request 100 200 300 none (omega arith) refl

verify_password-hash_password_example :
    (verify_password plain_scrypt (units "pw") (hash_password plain_scrypt (9 ∷ []) (units "pw"))
      ≡ true)
    × ((verify_password plain_scrypt (units "no") (hash_password plain_scrypt (9 ∷ []) (units "pw"))
          ≡ true)
        ↔ (plain_scrypt (units "pw") (9 ∷ []) ≡ plain_scrypt (units "no") (9 ∷ [])))
verify_password-hash_password_example =
    verify_password-hash_password plain_scrypt plain_scrypt-AreBytes (9 ∷ []) (omega arith, tt)
      (λ h. cc) (units "pw") (units "no")
