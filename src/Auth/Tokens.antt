-- ===== src/Auth/Tokens.antt =====
-- The refresh tokens of apps/api/src/auth/token.service.ts. `hash` is SHA-256 and a raw token is
-- the reply of randomBytes: parameters. A call reads the clock once. Access has the tokens that the
-- JWT library signs.
pub mod Rotation
pub mod Revocation
use hotelsb2b.Common.{
  ℕ, suc, ◌+◌, ◌*◌, Bool, true, false, not, ◌&&◌, Option, none, some, List, [], ◌∷◌, Text, text_eq,
  any, find, update_where, Result, ok, err, unauthorized, internal, ltb, leb, ◌==◌, if◌then◌else◌,
}

-- `REFRESH_TTL_DAYS`, in milliseconds, and `GRACE_MS`.
abbrev pub refresh_ttl_ms : ℕ
refresh_ttl_ms = 30 * 86_400_000

abbrev pub grace_ms : ℕ
grace_ms = 10_000

-- The table of refresh tokens.
pub record RefreshToken : Type 0 where
  pub id : ℕ
  pub user_id : Option ℕ
  pub guest_id : Option ℕ
  pub token_hash : Text
  pub family : ℕ
  pub expires_at : ℕ
  pub revoked_at : Option ℕ
  pub replaced_by_id : Option ℕ
  pub user_agent : Option Text
  pub ip_address : Option Text

-- The rows, the latest first, and the next identifier that the database draws.
pub record TokenDb : Type 0 where
  pub next_id : ℕ
  pub tokens : List RefreshToken

pub record RefreshContext : Type 0 where
  pub user_agent : Option Text
  pub ip_address : Option Text

-- The id of a guest is `null` where a row has neither a user nor a guest.
pub data Subject : Type 0 where
  staff : ℕ → Subject
  guest : Option ℕ → Subject

abbrev pub user_of : Subject → Option ℕ
user_of (staff id) = some id
user_of (guest _) = none

abbrev pub guest_of : Subject → Option ℕ
guest_of (staff _) = none
guest_of (guest id) = id

-- `existing.userId ? … : …`.
abbrev pub subject_of : Option ℕ → Option ℕ → Subject
subject_of (some id) _ = staff id
subject_of none id = guest id

-- What a refresh yields.
pub record Refreshed : Type 0 where
  pub subject : Subject
  pub refresh : Text

-- `replacement?.id ?? null`.
abbrev pub id_of : Option RefreshToken → Option ℕ
id_of none = none
id_of (some t) = some t.id

unfoldable pub is_live : RefreshToken → Bool
is_live t = elim t.revoked_at [ none ↦ true | some _ ↦ false ]

unfoldable pub revoke_at : ℕ → Option ℕ → RefreshToken → RefreshToken
revoke_at now replacement t = record t { revoked_at = some now; replaced_by_id = replacement }

-- `revokeFamily`: `updateMany` over the rows of the family that are not revoked.
unfoldable pub revoke_family : ℕ → ℕ → TokenDb → TokenDb
unfolding is_live
revoke_family now family db = record db {
  tokens =
      update_where (λ (t : RefreshToken). (t.family == family) && is_live t)
        (λ t. record t { revoked_at = some now }) db.tokens;
}

-- `!replacedRecently`.
unfoldable pub is_reuse : ℕ → RefreshToken → Bool
is_reuse now t = elim t.revoked_at [ none ↦ false | some at ↦ leb (at + grace_ms) now ]

module _ (hash : Text → Text) where
  unfoldable pub find_token : TokenDb → Text → Option RefreshToken
  find_token db raw = find (λ t. text_eq t.token_hash (hash raw)) db.tokens

  -- The row of `issueRefreshToken`.
  unfoldable pub issued : TokenDb → Text → ℕ → Subject → RefreshContext → ℕ → RefreshToken
  issued db raw now subject ctx family = record {
    id = db.next_id;
    user_id = user_of subject;
    guest_id = guest_of subject;
    token_hash = hash raw;
    family = family;
    expires_at = now + refresh_ttl_ms;
    revoked_at = none;
    replaced_by_id = none;
    user_agent = ctx.user_agent;
    ip_address = ctx.ip_address;
  }

  -- `issueRefreshToken` in a family: a hash in use is refused by the unique index.
  unfoldable pub issue_refresh_token :
      TokenDb → Text → ℕ → Subject → RefreshContext → ℕ → Option TokenDb
  unfolding issued
  issue_refresh_token db raw now subject ctx family =
      if any (λ t. text_eq t.token_hash (hash raw)) db.tokens
      then none
      else some (record {
        next_id = suc db.next_id;
        tokens = issued db raw now subject ctx family ∷ db.tokens;
      })

  -- The end of `rotate`: the old token is revoked, unless it was already.
  unfoldable pub replace_token : ℕ → RefreshToken → Text → TokenDb → TokenDb
  unfolding find_token revoke_at
  replace_token now existing refresh db = elim existing.revoked_at [
    | none ↦ record db {
      tokens =
          update_where (λ (t : RefreshToken). t.id == existing.id)
            (revoke_at now (id_of (find_token db refresh))) db.tokens;
    }
    | some _ ↦ db
  ]

  -- `rotate` past its checks: a token in the same family for the same subject.
  unfoldable pub issue_next :
      TokenDb → RefreshToken → Text → ℕ → RefreshContext → Result Refreshed × TokenDb
  unfolding issue_refresh_token replace_token
  issue_next db existing fresh now ctx =
      let subject = subject_of existing.user_id existing.guest_id in
      elim (issue_refresh_token db fresh now subject ctx existing.family) [
        | none ↦ (err (internal "Unique constraint failed"), db)
        | some db' ↦ (
          ok (record { subject = subject; refresh = fresh }),
          replace_token now existing fresh db',
        )
      ]

  -- `rotate`, with `fresh` for the raw token that it issues. The revocation of a family stays
  -- although the call throws: it is no transaction.
  unfoldable pub rotate : TokenDb → Text → Text → ℕ → RefreshContext → Result Refreshed × TokenDb
  unfolding find_token is_reuse issue_next
  rotate db raw fresh now ctx = elim (find_token db raw) [
    | none ↦ (err (unauthorized "Invalid refresh token"), db)
    | some existing ↦
        if ltb existing.expires_at now
        then (err (unauthorized "Invalid refresh token"), db)
        else if is_reuse now existing
        then (
          err (unauthorized "Refresh token reuse detected"),
          revoke_family now existing.family db,
        )
        else issue_next db existing fresh now ctx
  ]

  -- `revokeByRaw`.
  unfoldable pub revoke_by_raw : ℕ → Text → TokenDb → TokenDb
  unfolding find_token
  revoke_by_raw now raw db = elim (find_token db raw) [
    | none ↦ db
    | some t ↦ revoke_family now t.family db
  ]
