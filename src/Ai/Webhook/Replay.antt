-- ===== src/Ai/Webhook/Replay.antt =====
-- A captured request that is sent again.
use hotelsb2b.Common.{
  ℕ, ◌+◌, ◌≤◌, ◌<◌, ◌≡◌, ◌≢◌, none, [], ◌∷◌, or_throw-eq-ok, inl, inr, refl, ap, ◌∙◌, subst, Bool,
  true, false, not, Option, some, Text, ok, err, unauthorized, >>=-eq-ok, guard-eq-ok, ok-injective,
  ◌>>◌, arith, Bool-cases, Option-cases, Result-cases,
}
use hotelsb2b.Redis.{Redis, Laws, ai_nonce, number, set_nx}
use hotelsb2b.Ai.Webhook.{
  nonce_ttl_seconds, Webhook, is_stale, Signed, read_headers, check_signature, check_webhook,
  use_nonce, verify_webhook, present,
}

-- What a passed check says of its time, and when it passes again.
pub record IsChecked (number_ms : Text → Option ℕ) (hmac : Text → Text → Text)
    (secret : Option Text) (req : Webhook) (now : ℕ) (h : Signed) : Type 0 where
  pub signed_by : req.x_ai_signature ≡ some h.signature
  pub fresh : is_stale now h.ts ≡ false
  pub again :
      (later : ℕ)
      → is_stale later h.ts ≡ false
      → check_webhook number_ms hmac secret req later ≡ ok h
  pub too_late :
      (later : ℕ)
      → is_stale later h.ts ≡ true
      → check_webhook number_ms hmac secret req later
        ≡ err (unauthorized "Stale or invalid timestamp")

-- Two times within the window of one timestamp are at most ten minutes apart.
window_lem :
    (now later ts : ℕ)
    → is_stale now ts ≡ false
    → is_stale later ts ≡ false
    → later ≢ now + 600_000
    → later < now + 600_000
unfolding is_stale
window_lem now later ts h k ne = ground arith

not-true : (b : Bool) → not b ≡ true → b ≡ false
not-true false h = refl
not-true true h = cc

present_sound : (o : Option Text) (t : Text) → present o ≡ some t → o ≡ some t
present_sound none t h = absurd cc
present_sound (some []) t h = absurd cc
present_sound (some (c ∷ cs)) t h = h

module _ (number_ms : Text → Option ℕ) (hmac : Text → Text → Text) (secret : Option Text)
    (req : Webhook) where
  signature-read :
      (h : Signed)
      → read_headers number_ms hmac secret req ≡ ok h
      → req.x_ai_signature ≡ some h.signature
  unfolding read_headers
  signature-read h e =
      let (_, _, e₁) = or_throw-eq-ok (present secret) _ _ e in
      let (signature, given, e₂) = or_throw-eq-ok (present req.x_ai_signature) _ _ e₁ in
      let (timestamp, _, e₃) = or_throw-eq-ok (present req.x_ai_timestamp) _ _ e₂ in
      let (_, _, e₄) = or_throw-eq-ok (number_ms timestamp) _ _ e₃ in
      present_sound _ _ given ∙ ap (λ (x : Signed). some x.signature) (ok-injective e₄)

  check_webhook_sound :
      (now : ℕ) (h : Signed)
      → check_webhook number_ms hmac secret req now ≡ ok h
      → IsChecked number_ms hmac secret req now h
  unfolding check_webhook
  check_webhook_sound now h e =
      let (h', read, e₁) = >>=-eq-ok (read_headers number_ms hmac secret req) _ e in
      let (fresh, e₂) =
        guard-eq-ok (not (is_stale now h'.ts)) (unauthorized "Stale or invalid timestamp")
          (check_signature number_ms hmac h' req >> ok h') e₁ in
      let (_, signed, e₃) = >>=-eq-ok (check_signature number_ms hmac h' req) (λ _. ok h') e₂ in
      subst (IsChecked number_ms hmac secret req now) (ok-injective e₃) (record {
        signed_by = signature-read h' read;
        fresh = not-true _ fresh;
        again = λ later ok_then. rw (read, ok_then, signed, check_webhook) refl;
        too_late = λ later stale. rw (read, stale, check_webhook) refl;
      })

  module _ (r : Redis) (laws : Laws r) where
    accepted :
        (now : ℕ) (s : r.Store)
        → (verify_webhook number_ms hmac r secret req now s).0 ≡ ok tt
        → (h : Signed) × (check_webhook number_ms hmac secret req now ≡ ok h)
          × IsChecked number_ms hmac secret req now h
          × ((verify_webhook number_ms hmac r secret req now s).1
              ≡ r.set s now (ai_nonce h.signature) (number 1) (some nonce_ttl_seconds))
    unfolding verify_webhook use_nonce set_nx
    accepted now s e = elim (Result-cases (check_webhook number_ms hmac secret req now)) [
      | inl (x, refused) ↦ absurd (cc (rw (refused, verify_webhook) at e))
      | inr (h, passed) ↦ elim (Option-cases (r.get s now (ai_nonce h.signature))) [
        | inl unused ↦ (
          h,
          passed,
          check_webhook_sound now h passed,
          rw (passed, verify_webhook, use_nonce, unused, set_nx) refl,
        )
        | inr (v, used) ↦ absurd (cc (rw (passed, verify_webhook, use_nonce, used, set_nx) at e))
      ]
    ]

    -- A request that was let in is not let in again at any later time but one millisecond, whatever
    -- else has happened to the store, as long as the entry of its own signature reads as the first
    -- call left it. The exception is the millisecond ten minutes later, in which the window of its
    -- timestamp and the entry can end together.
    pub verify_webhook_once :
        (now later : ℕ) (s t : r.Store)
        → (verify_webhook number_ms hmac r secret req now s).0 ≡ ok tt
        → ((k : Text)
            → req.x_ai_signature ≡ some k
            → r.get t later (ai_nonce k)
              ≡ r.get (verify_webhook number_ms hmac r secret req now s).1 later (ai_nonce k))
        → now ≤ later
        → later ≢ now + 600_000
        → (verify_webhook number_ms hmac r secret req later t).0 ≢ ok tt
    unfolding verify_webhook use_nonce set_nx
    verify_webhook_once now later s t e kept order ne again =
        let (h, _, checked, left) = accepted now s e in
        elim (Bool-cases (is_stale later h.ts)) [
          | inl stale ↦ absurd (cc (rw (checked.too_late later stale, verify_webhook) at again))
          | inr fresh ↦
              let early : later < now + 600_000 =
                window_lem now later h.ts checked.fresh fresh ne in
              let used : r.get t later (ai_nonce h.signature) ≡ some (number 1) =
                kept h.signature checked.signed_by
                ∙ ap (λ x. r.get x later (ai_nonce h.signature)) left
                ∙ laws.get-set_self s now later (ai_nonce h.signature) (number 1) nonce_ttl_seconds
                    early in
              absurd (
                cc (
                  rw (checked.again later fresh, verify_webhook, use_nonce, used, set_nx) at again))
        ]
