-- ===== src/Idempotency.antt =====
-- apps/api/src/common/idempotency/idempotency.service.ts, over the interface of Redis. The request
-- that is run, the creation of a booking, acts on the store and on the rest of the world, `D`. The
-- fingerprint is what SHA-256 gives for the request: a text.
pub mod Laws
use hotelsb2b.Common.{
  ℕ, Bool, true, false, Option, none, some, List, [], ◌∷◌, Text, text_eq, Result, ok, err, conflict,
  unprocessable, if◌then◌else◌,
}
use hotelsb2b.Schema.{Booking}
use hotelsb2b.Redis.{Redis, Key, idem_res, idem_lock, Value, number, listing, stored, set_nx}

-- `RESULT_TTL_SECONDS` and `LOCK_TTL_SECONDS`.
abbrev pub result_ttl_seconds : ℕ
result_ttl_seconds = 86_400

abbrev pub lock_ttl_seconds : ℕ
lock_ttl_seconds = 60

-- `StoredResult`, with the value of the route: a booking.
pub record StoredResult : Type 0 where
  pub fingerprint : Text
  pub value : Booking

-- What `get` of a result key yields.
abbrev pub as_stored : Option Value → Option StoredResult
as_stored (some (stored f b)) = some (record { fingerprint = f; value = b })
as_stored _ = none

unfoldable pub decode_or_reject : StoredResult → Text → Result Booking
decode_or_reject s fingerprint =
    if text_eq s.fingerprint fingerprint
    then ok s.value
    else err (unprocessable "Idempotency-Key was already used with a different request payload")

-- When the lock is taken: the request that holds it may have ended meanwhile.
unfoldable pub when_locked : Option StoredResult → Text → Result Booking
unfolding decode_or_reject
when_locked (some raced) fingerprint = decode_or_reject raced fingerprint
when_locked none fingerprint =
    err (conflict "A request with this Idempotency-Key is already in progress")

module _ (r : Redis) {D : Type 0} where
  open r use {Store, get, set, del}

  -- The `try … finally`, when `fn` has ended at `done`.
  unfoldable pub finish :
      Text → Text → ℕ → Result Booking × (Store × D) → Result Booking × (Store × D)
  finish key fingerprint done (ok value, (s, d)) = (
    ok value,
    (
      del (set s done (idem_res key) (stored fingerprint value) (some result_ttl_seconds))
          (idem_lock key),
      d,
    ),
  )
  finish key fingerprint done (err e, (s, d)) = (err e, (del s (idem_lock key), d))

  -- `execute` with a key. `others` is what other clients do to the store between the attempt to lock
  -- and the second read; `fn` runs from `now` to `done`.
  unfoldable pub execute_with :
      Text
      → Text
      → (Store → Store)
      → ℕ
      → ℕ
      → (Store × D → Result Booking × (Store × D))
      → Store × D
      → Result Booking × (Store × D)
  unfolding decode_or_reject finish when_locked
  execute_with key fingerprint others now done fn (s, d) =
      elim (as_stored (get s now (idem_res key))) [
        | some cached ↦ (decode_or_reject cached fingerprint, (s, d))
        | none ↦ elim (set_nx r s now (idem_lock key) (number 1) lock_ttl_seconds) [
          | some locked ↦ finish key fingerprint done (fn (locked, d))
          | none ↦ (
            when_locked (as_stored (get (others s) now (idem_res key))) fingerprint,
            (others s, d),
          )
        ]
      ]

  -- `execute`: a missing or an empty key is no key.
  unfoldable pub execute :
      Option Text
      → Text
      → (Store → Store)
      → ℕ
      → ℕ
      → (Store × D → Result Booking × (Store × D))
      → Store × D
      → Result Booking × (Store × D)
  unfolding execute_with
  execute (some (c ∷ cs)) fingerprint others now done fn w =
      execute_with (c ∷ cs) fingerprint others now done fn w
  execute _ fingerprint others now done fn w = fn w
