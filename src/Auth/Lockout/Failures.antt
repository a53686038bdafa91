-- ===== src/Auth/Lockout/Failures.antt =====
-- What a run of failures leads to.
use hotelsb2b.Common.{
  ℕ, suc, ◌+◌, ◌*◌, ◌≤◌, ◌<◌, ◌≡◌, ◌≢◌, refl, sym, ◌∙◌, subst, false, none, some, Text, ok, err,
  too_many_requests, arith, leb, lt→ltb, ◌==◌,
}
use hotelsb2b.Redis.{Redis, Laws, auth_fail, auth_lock, number}
use hotelsb2b.Auth.Lockout.{
  window_seconds, lockout_seconds, assert_not_locked, start_window, lock_out, record_failure, clear,
}

fail-ne : (id : Text) → auth_fail id ≢ auth_lock id
fail-ne id h = absurd cc

module _ (r : Redis) (laws : Laws r) (id : Text) where
  open r use {Store, get, set, del, incr, expire, ttl}

  -- `n` failures are counted until the window that began at `start` is over.
  pub IsCounting : Store → ℕ → ℕ → Type 0
  IsCounting s start n =
      (t : ℕ)
      → start ≤ t
      → t < start + 1000 * window_seconds
      → get s t (auth_fail id) ≡ some (number n)

  -- The first failure opens the window.
  pub record_failure-first :
      (s : Store) (now : ℕ)
      → get s now (auth_fail id) ≡ none
      → IsCounting (record_failure r s now id) now 1
  unfolding record_failure start_window lock_out IsCounting
  record_failure-first s now e t lo hi =
      let (count, _) = laws.incr_none s now now (auth_fail id) e in
      let here = (laws.incr_none s now now (auth_fail id) e).1 in
      rw count (
        laws.get-expire_self (incr s now (auth_fail id)).1 now t (auth_fail id) window_seconds lo hi
        ∙ here)

  -- A further one is counted in it.
  pub record_failure-next :
      (s : Store) (start n now : ℕ)
      → 0 < n
      → n < 4
      → start ≤ now
      → now < start + 1000 * window_seconds
      → IsCounting s start n
      → IsCounting (record_failure r s now id) start (suc n)
  unfolding record_failure start_window lock_out IsCounting
  record_failure-next s start n now some_before few lo hi counting t lo' hi' =
      let (count, counted, _) = laws.incr_some s now (auth_fail id) n (counting now lo hi) in
      let later : (suc n == 1) ≡ false = ground arith in
      let below : leb 5 (suc n) ≡ false = ground arith in
      rw (count, later, below) (counted t (counting t lo' hi'))

  -- The fifth locks the identifier out.
  pub record_failure-locked :
      (s : Store) (start now later : ℕ)
      → start ≤ now
      → now < start + 1000 * window_seconds
      → IsCounting s start 4
      → now ≤ later
      → later + 1000 ≤ now + 1000 * lockout_seconds
      → 0 < ttl (record_failure r s now id) later (auth_lock id)
  unfolding record_failure start_window lock_out IsCounting
  record_failure-locked s start now later lo hi counting lo' hi' =
      let (count, _, _) = laws.incr_some s now (auth_fail id) 4 (counting now lo hi) in
      rw count (
        subst (λ n. 0 < n)
          (sym (laws.ttl-del_ne _ later (auth_fail id) (auth_lock id) (fail-ne id)))
          (laws.ttl-set (incr s now (auth_fail id)).1 now later (auth_lock id) (number 1)
            lockout_seconds lo' hi'))

  -- Five failures at times within a quarter of an hour of the first, from a count that is not
  -- running, lock the identifier out: it is refused from the fifth failure on for a quarter of an
  -- hour, up to its last second.
  pub record_failure-assert_not_locked :
      (s : Store) (t₁ t₂ t₃ t₄ t₅ later : ℕ)
      → get s t₁ (auth_fail id) ≡ none
      → t₁ ≤ t₂
      → t₂ ≤ t₃
      → t₃ ≤ t₄
      → t₄ ≤ t₅
      → t₅ < t₁ + 1000 * window_seconds
      → t₅ ≤ later
      → later + 1000 ≤ t₅ + 1000 * lockout_seconds
      → assert_not_locked r
          (record_failure r
            (record_failure r
              (record_failure r (record_failure r (record_failure r s t₁ id) t₂ id) t₃ id)
              t₄
              id)
            t₅
            id)
          later
          id
        ≡ err (too_many_requests "Too many attempts")
  unfolding assert_not_locked
  record_failure-assert_not_locked s t₁ t₂ t₃ t₄ t₅ later e o₂ o₃ o₄ o₅ within lo hi =
      let one = record_failure-first s t₁ e in
      let two =
        record_failure-next _ t₁ 1 t₂ (omega arith) (omega arith) (omega arith) (omega arith) one in
      let three =
        record_failure-next _ t₁ 2 t₃ (omega arith) (omega arith) (omega arith) (omega arith) two in
      let four =
        record_failure-next _ t₁ 3 t₄ (omega arith) (omega arith) (omega arith) (omega arith)
          three in
      let locked = record_failure-locked _ t₁ t₅ later (omega arith) within four lo hi in
      rw (lt→ltb 0 _ locked) refl

  -- A success unlocks the identifier and forgets its failures.
  pub assert_not_locked-clear :
      (s : Store) (now : ℕ)
      → (assert_not_locked r (clear r s id) now id ≡ ok tt)
        × (get (clear r s id) now (auth_fail id) ≡ none)
  unfolding assert_not_locked clear
  assert_not_locked-clear s now =
      let unlocked =
        laws.ttl_none _ now (auth_lock id)
          (laws.get-del_self (del s (auth_fail id)) now (auth_lock id)) in
      (
        rw unlocked refl,
        laws.get-del_ne (del s (auth_fail id)) now (auth_lock id) (auth_fail id)
              (λ h. fail-ne id (sym h))
            ∙ laws.get-del_self s now (auth_fail id),
      )
