-- ===== src/Auth/Lockout.antt =====
-- apps/api/src/auth/auth-lockout.service.ts, over the interface of Redis.
pub mod Failures
use hotelsb2b.Common.{
  ℕ, ◌<◌, Bool, true, false, List, [], ◌∷◌, Text, Result, ok, err, too_many_requests, some, ltb,
  leb, ◌==◌, if◌then◌else◌,
}
use hotelsb2b.Redis.{Redis, Key, auth_fail, auth_lock, Value, number}

-- `MAX_FAILURES`, `WINDOW_SECONDS` and `LOCKOUT_SECONDS`.
abbrev pub max_failures : ℕ
max_failures = 5

abbrev pub window_seconds : ℕ
window_seconds = 900

abbrev pub lockout_seconds : ℕ
lockout_seconds = 900

module _ (r : Redis) where
  open r use {Store, set, del, incr, expire, ttl}

  unfoldable pub assert_not_locked : Store → ℕ → Text → Result (Unit {0})
  assert_not_locked s now identifier =
      if ltb 0 (ttl s now (auth_lock identifier))
      then err (too_many_requests "Too many attempts")
      else ok tt

  -- `if (count === 1) await this.redis.expire(key, WINDOW_SECONDS)`.
  unfoldable pub start_window : ℕ → Store → ℕ → Text → Store
  start_window count s now identifier =
      if count == 1 then expire s now (auth_fail identifier) window_seconds else s

  -- `if (count >= MAX_FAILURES) …`.
  unfoldable pub lock_out : ℕ → Store → ℕ → Text → Store
  lock_out count s now identifier =
      if leb max_failures count
      then del (set s now (auth_lock identifier) (number 1) (some lockout_seconds))
          (auth_fail identifier)
      else s

  unfoldable pub record_failure : Store → ℕ → Text → Store
  unfolding start_window lock_out
  record_failure s now identifier =
      let (count, counted) = incr s now (auth_fail identifier) in
      lock_out count (start_window count counted now identifier) now identifier

  unfoldable pub clear : Store → Text → Store
  clear s identifier = del (del s (auth_fail identifier)) (auth_lock identifier)
