-- ===== src/Ai/Webhook.antt =====
-- apps/api/src/modules/ai/hmac-signature.guard.ts, over the interface of Redis. HMAC-SHA256 in
-- hexadecimal digits is a parameter, and so is what `Number` reads of a text, in milliseconds:
-- `none` for what is not finite and for what is negative, which is stale at any time.
pub mod Replay
use hotelsb2b.Common.{
  ℕ, ◌+◌, ◌*◌, Bool, true, false, not, ◌||◌, Option, none, some, [], ◌∷◌, ◌++◌, Text, text_eq,
  Result, ok, err, or_throw, guard, unauthorized, ◌>>=◌, ◌>>◌, ltb,
}
use hotelsb2b.Redis.{Redis, ai_nonce, number, set_nx}

-- `MAX_SKEW_SECONDS`, in milliseconds, and `NONCE_TTL_SECONDS`.
abbrev pub max_skew_ms : ℕ
max_skew_ms = 300_000

abbrev pub nonce_ttl_seconds : ℕ
nonce_ttl_seconds = 600

-- What the guard reads of a request.
pub record Webhook : Type 0 where
  pub x_ai_signature : Option Text
  pub x_ai_timestamp : Option Text
  pub raw_body : Option Text

-- A header, a secret or a body that is empty counts as missing.
abbrev pub present : Option Text → Option Text
present (some (c ∷ cs)) = some (c ∷ cs)
present _ = none

-- `Math.abs(Date.now() / 1000 - ts) > MAX_SKEW_SECONDS`.
unfoldable pub is_stale : ℕ → ℕ → Bool
is_stale now ts = ltb (ts + max_skew_ms) now || ltb (now + max_skew_ms) ts

-- The secret and the headers, once they are there.
pub record Signed : Type 0 where
  pub secret : Text
  pub signature : Text
  pub timestamp : Text
  pub ts : ℕ

module _ (number_ms : Text → Option ℕ) (hmac : Text → Text → Text) where
  unfoldable pub read_headers : Option Text → Webhook → Result Signed
  read_headers ai_webhook_secret req = do
    secret ←
        or_throw (present ai_webhook_secret) (unauthorized "Webhook verification not configured")
    signature ← or_throw (present req.x_ai_signature) (unauthorized "Missing signature")
    timestamp ← or_throw (present req.x_ai_timestamp) (unauthorized "Missing signature")
    ts ← or_throw (number_ms timestamp) (unauthorized "Stale or invalid timestamp")
    ok (record { secret = secret; signature = signature; timestamp = timestamp; ts = ts })

  -- The signature is that of `${timestamp}.${rawBody}`.
  unfoldable pub check_signature : Signed → Webhook → Result (Unit {0})
  check_signature h req = do
    body ← or_throw (present req.raw_body) (unauthorized "Missing request body")
    guard (text_eq h.signature (hmac h.secret (h.timestamp ++ b'.' ∷ body)))
        (unauthorized "Invalid signature")

  -- `canActivate` up to the nonce, and the headers.
  unfoldable pub check_webhook : Option Text → Webhook → ℕ → Result Signed
  unfolding read_headers is_stale check_signature
  check_webhook ai_webhook_secret req now = do
    h ← read_headers ai_webhook_secret req
    guard (not (is_stale now h.ts)) (unauthorized "Stale or invalid timestamp")
    check_signature h req
    ok h

  module _ (r : Redis) where
    -- The nonce: the signature may be used once.
    unfoldable pub use_nonce : Text → ℕ → r.Store → Result (Unit {0}) × r.Store
    use_nonce signature now s =
        elim (set_nx r s now (ai_nonce signature) (number 1) nonce_ttl_seconds) [
          | none ↦ (err (unauthorized "Replay detected"), s)
          | some s' ↦ (ok tt, s')
        ]

    -- `canActivate`.
    unfoldable pub verify_webhook :
        Option Text → Webhook → ℕ → r.Store → Result (Unit {0}) × r.Store
    unfolding check_webhook use_nonce
    verify_webhook ai_webhook_secret req now s = elim (check_webhook ai_webhook_secret req now) [
      | err e ↦ (err e, s)
      | ok h ↦ use_nonce h.signature now s
    ]
