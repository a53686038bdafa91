-- ===== src/Http.antt =====
-- What the code reads of an Express request, and apps/api/src/common/action-context.ts. An absent
-- header, cookie or field is `none`.
use hotelsb2b.Common.{
  ℕ, Bool, true, false, Option, none, some, [], ◌∷◌, Text, text_eq, units, to_upper, if◌then◌else◌,
}
use hotelsb2b.Schema.{Channel, web, staff, ai_chat, ai_voice, ai_phone}
use hotelsb2b.Auth.Subject.{AuthUser, staff_user, guest_user}

pub record HttpRequest : Type 0 where
  pub method : Text
  pub authorization : Option Text
  pub x_csrf_token : Option Text
  pub x_channel : Option Text
  pub user_agent : Option Text
  pub cookie_access_token : Option Text
  pub cookie_refresh_token : Option Text
  pub cookie_csrf_token : Option Text
  pub id : Option Text
  pub ip : Option Text

-- An absent value and an empty text are falsy.
abbrev pub truthy : Option Text → Bool
truthy none = false
truthy (some []) = false
truthy (some (c ∷ s)) = true

pub record ActionContext : Type 0 where
  pub channel : Channel
  pub actor_user_id : Option ℕ
  pub actor_guest_id : Option ℕ
  pub correlation_id : Option Text
  pub ip_address : Option Text

-- `(value as Channel)` where the text is one of the values, and else WEB.
unfoldable pub channel_named : Text → Channel
channel_named value =
    if text_eq value (units "STAFF")
    then staff
    else if text_eq value (units "AI_CHAT")
    then ai_chat
    else if text_eq value (units "AI_VOICE")
    then ai_voice
    else if text_eq value (units "AI_PHONE")
    then ai_phone
    else web

-- `parseChannel`.
unfoldable pub parse_channel : Option Text → Channel
unfolding channel_named
parse_channel none = web
parse_channel (some raw) = channel_named (to_upper raw)

abbrev pub staff_actor : Option AuthUser → Option ℕ
staff_actor (some (staff_user id email role)) = some id
staff_actor _ = none

abbrev pub guest_actor : Option AuthUser → Option ℕ
guest_actor (some (guest_user id email)) = some id
guest_actor _ = none

-- `contextFromRequest`, with `req.user`.
unfoldable pub context_from_request : HttpRequest → Option AuthUser → ActionContext
unfolding parse_channel
context_from_request req user = record {
  channel = parse_channel req.x_channel;
  actor_user_id = staff_actor user;
  actor_guest_id = guest_actor user;
  correlation_id = req.id;
  ip_address = req.ip;
}
