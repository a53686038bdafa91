-- ===== src/Examples/Registration.antt =====
-- The theorems on registration and refresh.
use hotelsb2b.Common.{
  ◌≡◌, refl, false, some, text_eq, to_lower, units, Result, ok, find, any, arith,
}
use hotelsb2b.Redis.Memory.{memory}
use hotelsb2b.Auth.Subject.{guest_user}
use hotelsb2b.Auth.Tokens.{issue_refresh_token, rotate}
use hotelsb2b.Auth.Lockout.{assert_not_locked}
use hotelsb2b.Auth.Otp.{account_of}
use hotelsb2b.Auth.Access.{issue_access_token}
use hotelsb2b.Auth.Service.{AuthResult, State, issue, audit, guest_key, account_row, load_auth_user}
use hotelsb2b.Auth.Service.Accounts.{guest_register, guest_login}
use hotelsb2b.Auth.Service.Sessions.{refresh}
use hotelsb2b.Auth.Service.Refresh.{IsCurrent, refresh_sound}
use hotelsb2b.Auth.Service.Register.{guest_login-guest_register}
use hotelsb2b.Examples.Signing.{plain_jwt, plain_scrypt-AreBytes}
use hotelsb2b.Examples.Accounts.{env, draws_of, ctx, start}

abbrev after_register : Result AuthResult × State memory env
after_register =
    guest_register memory env (draws_of (units "r")) (units "G@h") (units "long enough") (units "G")
      (units "H") ctx 100 start

abbrev registered_guest : AuthResult
registered_guest = record {
  user = guest_user 100 (some (units "g@h"));
  access_token = issue_access_token plain_jwt env.secrets (guest_user 100 (some (units "g@h"))) 100;
  refresh_token = units "r";
}

did_register : after_register.0 ≡ ok registered_guest
unfolding guest_register account_of find issue issue_refresh_token any to_lower account_row
did_register = refl

not_locked : assert_not_locked memory after_register.1.store 200 (guest_key (units "g@H")) ≡ ok tt
unfolding guest_register account_of find issue issue_refresh_token any assert_not_locked audit
not_locked = refl

unused_token : any (λ t. text_eq t.token_hash (units "q")) after_register.1.tokens.tokens ≡ false
unfolding guest_register account_of find issue issue_refresh_token any text_eq
unused_token = refl

same_address : to_lower (units "g@H") ≡ to_lower (units "G@h")
unfolding to_lower
same_address = refl

guest_login-guest_register_example :
    (b : AuthResult) × ((guest_login memory env
        (draws_of (units "q"))
        (units "g@H")
        (units "long enough")
        ctx
        200
        after_register.1).0
      ≡ ok b)
    × (b.user ≡ registered_guest.user)
guest_login-guest_register_example =
    guest_login-guest_register memory env plain_scrypt-AreBytes (draws_of (units "r"))
      (draws_of (units "q")) (units "G@h") (units "g@H") (units "long enough") (units "G")
      (units "H") ctx ctx 100 200 start registered_guest (omega arith, (omega arith, tt)) (λ h. cc)
      did_register same_address not_locked unused_token

abbrev refreshed : AuthResult
refreshed = record registered_guest {
  access_token = issue_access_token plain_jwt env.secrets registered_guest.user 200;
  refresh_token = units "q";
}

did_refresh :
    (refresh memory env (draws_of (units "q")) (units "r") ctx 200 after_register.1).0
    ≡ ok refreshed
unfolding guest_register account_of find issue issue_refresh_token any text_eq refresh rotate
    load_auth_user account_row to_lower
did_refresh = refl

refresh_sound_example :
    IsCurrent after_register.1.users after_register.1.db registered_guest.user
    × (refreshed.access_token ≡ issue_access_token plain_jwt env.secrets registered_guest.user 200)
refresh_sound_example =
    refresh_sound memory env (draws_of (units "q")) (units "r") ctx 200 after_register.1 refreshed
      did_refresh
