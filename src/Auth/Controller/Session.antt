-- ===== src/Auth/Controller/Session.antt =====
-- A browser with the cookies of a login.
use hotelsb2b.Common.{
  ℕ, ◌+◌, ◌/◌, ◌<◌, ◌≡◌, ◌≢◌, refl, sym, ap, ap₂, ◌∙◌, Bool, true, none, some, List, [], ◌∷◌, Text,
  all, select, ◌++◌, false, ◌||◌, Bool-cases, inl, inr, text_eq, text_eq_refl, units, find, Result,
  ok, err, ◌>>=◌, ◌>>◌, ok-injective, arith,
}
use hotelsb2b.Schema.{Db}
use hotelsb2b.Http.{HttpRequest}
use hotelsb2b.Redis.{Redis}
use hotelsb2b.Auth.Subject.{AuthUser}
use hotelsb2b.Auth.Access.{JwtLaws, access_ttl_seconds, issue_access_token}
use hotelsb2b.Auth.Scope.{StaffPropertyAccess, can_activate}
use hotelsb2b.Auth.Guards.{
  is_safe_method, Route, extract, authenticate_token, authenticate, csrf_matches, check_csrf,
  check_roles, admit,
}
use hotelsb2b.Auth.Guards.Sessions.{authenticate_token-issue_access_token}
use hotelsb2b.Auth.Service.{AuthResult, Env, Draws, AuthState}
use hotelsb2b.Auth.Service.Accounts.{staff_login}
use hotelsb2b.Auth.Service.Login.{staff_login_sound, IsStaffLogin}
use hotelsb2b.Auth.Controller.Browser.{
  Browser, BrowserLaws, is_base64url, csrf_token, csrf_token_lem, header_of, document_cookie,
  cookie_read, browser_fetch,
}
use hotelsb2b.Auth.Controller.{
  access_max_age, AuthMode, Cookie, Reply, StaffLoginDto, cookie, respond, session_cookies,
  mode_or_cookie, context_of, answer, post_staff_login,
}

or-true : (s : Bool) {t : Bool} → t ≡ true → (s || t) ≡ true
or-true true h = refl
or-true false h = h

check_csrf-passes :
    (req : HttpRequest)
    → (is_safe_method req.method || csrf_matches req.cookie_csrf_token req.x_csrf_token) ≡ true
    → check_csrf req ≡ ok tt
unfolding check_csrf
check_csrf-passes req h = ground arith

csrf_matches-same :
    (csrf : Text) → csrf ≢ [] → csrf_matches (some csrf) (header_of (some csrf)) ≡ true
unfolding csrf_matches
csrf_matches-same [] h = absurd (h refl)
csrf_matches-same (c ∷ cs) h = text_eq_refl (c ∷ cs)

module _ (b : Browser) (b_laws : BrowserLaws b) (production : Bool) (csrf path method : Text)
    (a : AuthResult) where
  abbrev fetch : HttpRequest
  fetch = browser_fetch b (session_cookies production csrf a) path method

  abbrev access_cookie : Cookie
  access_cookie = record {
    name = units "access_token";
    value = a.access_token;
    http_only = true;
    secure = production;
    path = units "/";
    max_age = some access_max_age;
  }

  abbrev csrf_cookie : Cookie
  csrf_cookie = record {
    name = units "csrf_token";
    value = csrf;
    http_only = false;
    secure = production;
    path = units "/";
    max_age = none;
  }

  -- The browser sends the access token, as it was signed, and the CSRF token.
  read-access_token : extract fetch ≡ some a.access_token
  unfolding browser_fetch cookie_read session_cookies extract find text_eq
  read-access_token =
      rw (b_laws.sends_root access_cookie path refl) (ap some (b_laws.decode-encode a.access_token))

  read-csrf_token : fetch.cookie_csrf_token ≡ some csrf
  unfolding browser_fetch cookie_read session_cookies find text_eq
  read-csrf_token =
      rw (b_laws.sends_root csrf_cookie path refl) (ap some (b_laws.decode-encode csrf))

  document_cookie-session_cookies :
      all is_base64url csrf ≡ true
      → csrf_token (document_cookie b (session_cookies production csrf a)) ≡ some csrf
  unfolding document_cookie session_cookies select
  document_cookie-session_cookies plain =
      ap (λ t. csrf_token (units "csrf_token=" ++ t)) (b_laws.encode_plain csrf plain)
      ∙ csrf_token_lem csrf plain

  -- What it sends passes the guard of the CSRF token, whatever the method.
  fetch-check_csrf : all is_base64url csrf ≡ true → csrf ≢ [] → check_csrf fetch ≡ ok tt
  unfolding browser_fetch is_safe_method
  fetch-check_csrf plain drawn = elim (Bool-cases (text_eq method (units "GET"))) [
    | inl get ↦ check_csrf-passes fetch (rw get refl)
    | inr other ↦
        let echoed : fetch.x_csrf_token ≡ header_of (some csrf) =
          rw other (ap header_of (document_cookie-session_cookies plain)) in
        check_csrf-passes fetch (
          or-true (is_safe_method method)
            (ap₂ csrf_matches read-csrf_token echoed ∙ csrf_matches-same csrf drawn))
  ]

module _ (r : Redis) (env : Env) (laws : JwtLaws env.jwt) (b : Browser)
    (b_laws : BrowserLaws b) where
  -- With the cookies of a session the guards leave the decision to the roles and the scope of the
  -- route, whatever the method.
  admit-session :
      (db : Db) (grants : List StaffPropertyAccess) (route : Route) (csrf path method : Text)
      (user : AuthUser) (a : AuthResult) (now later : ℕ)
      → a.access_token ≡ issue_access_token env.jwt env.secrets user now
      → csrf ≢ []
      → all is_base64url csrf ≡ true
      → later / 1000 < now / 1000 + access_ttl_seconds
      → admit env.jwt env.secrets db grants route
          (browser_fetch b (session_cookies env.production csrf a) path method)
          later
        ≡ (check_roles route.roles (some user)
            >> (can_activate db grants route.scope (some user) route.id >> ok (some user)))
  unfolding admit authenticate
  admit-session db grants route csrf path method user a now later signed drawn plain early =
      let req = browser_fetch b (session_cookies env.production csrf a) path method in
      let known : authenticate env.jwt env.secrets req later ≡ ok (some user) =
        ap (λ t. authenticate_token env.jwt env.secrets t later)
          (read-access_token b b_laws env.production csrf path method a ∙ ap some signed)
        ∙ authenticate_token-issue_access_token env.jwt laws env.secrets user now later early in
      let checked = fetch-check_csrf b b_laws env.production csrf path method a plain drawn in
      ap
        (λ v. v >>= λ u.
          check_roles route.roles u
          >> (can_activate db grants route.scope u route.id >> (check_csrf req >> ok u)))
        known
      ∙ ap
          (λ c.
            check_roles route.roles (some user)
            >> (can_activate db grants route.scope (some user) route.id >> (c >> ok (some user))))
          checked

  answered :
      (csrf : Text) (mode : AuthMode) (out : Result AuthResult × AuthState r.Store) (reply : Reply)
      → (answer r env csrf mode out).0 ≡ ok reply
      → (a : AuthResult) × (out.0 ≡ ok a) × (reply ≡ respond env.production csrf mode a)
  answered csrf mode (err e, s) reply h = absurd cc
  answered csrf mode (ok a, s) reply h = (a, refl, sym (ok-injective h))

  -- A browser that has logged in at the staff login, in cookie mode, given or by default, is let in
  -- by what browserFetch then sends, until the second in which its fifteen minutes are over, as the
  -- member of the staff whose address and password were given, with any method and at any path; what
  -- is left to decide is the roles and the scope of the route. No token stands in the body of the
  -- reply. The CSRF token that is drawn is not empty and in base64url.
  pub admit-post_staff_login :
      (db : Db) (grants : List StaffPropertyAccess) (route : Route) (draws : Draws)
      (csrf path method : Text) (dto : StaffLoginDto) (req : HttpRequest) (now later : ℕ)
      (s : AuthState r.Store) (reply : Reply)
      → mode_or_cookie dto.mode ≡ cookie
      → csrf ≢ []
      → all is_base64url csrf ≡ true
      → (post_staff_login r env draws csrf dto req now s).0 ≡ ok reply
      → later / 1000 < now / 1000 + access_ttl_seconds
      → (a : AuthResult) × IsStaffLogin r env dto.email dto.password now s a
        × (reply.user ≡ a.user)
        × (reply.access_token ≡ none)
        × (reply.refresh_token ≡ none)
        × (admit env.jwt env.secrets db grants route
              (browser_fetch b reply.cookies path method)
              later
            ≡ (check_roles route.roles (some a.user)
                >> (can_activate db grants route.scope (some a.user) route.id >> ok (some a.user))))
  unfolding respond post_staff_login
  admit-post_staff_login db grants route draws csrf path method dto req now later s reply in_cookies
        drawn plain h early =
      let (a, passed, shown) =
        answered csrf (mode_or_cookie dto.mode)
          (staff_login r env draws dto.email dto.password (context_of req) now s) reply h in
      let same : reply ≡ respond env.production csrf cookie a =
        shown ∙ ap (λ m. respond env.production csrf m a) in_cookies in
      let login =
        staff_login_sound r env draws dto.email dto.password (context_of req) now s a passed in
      let signed =
        login.signed ∙ ap (λ u. issue_access_token env.jwt env.secrets u now) (sym login.shown) in
      (
        a,
        login,
        ap (λ (x : Reply). x.user) same,
        ap (λ (x : Reply). x.access_token) same,
        ap (λ (x : Reply). x.refresh_token) same,
        ap
              (λ (x : Reply).
                admit env.jwt env.secrets db grants route (browser_fetch b x.cookies path method)
                  later)
              same
            ∙ admit-session db grants route csrf path method a.user a now later signed drawn plain
                early,
      )
