-- ===== src/Idempotency/Laws.antt =====
-- What a repeated request sees.
use hotelsb2b.Common.{
  ℕ, ◌+◌, ◌*◌, ◌<◌, ◌≡◌, ◌≢◌, refl, ap, ◌∙◌, false, none, some, ◌∷◌, Text, text_eq, text_eq_refl,
  HttpError, Result, ok, err, conflict, unprocessable, if◌then◌else◌, ok-injective,
}
use hotelsb2b.Schema.{Booking}
use hotelsb2b.Redis.{Redis, Laws, idem_res, idem_lock, Value, number, stored, set_nx}
use hotelsb2b.Idempotency.{
  result_ttl_seconds, lock_ttl_seconds, as_stored, decode_or_reject, finish, when_locked,
  execute_with, execute,
}

lock-ne : (key : Text) → idem_lock key ≢ idem_res key
lock-ne key h = absurd cc

module _ (r : Redis) (laws : Laws r) {D : Type 0} (key fingerprint : Text) where
  open r use {Store, get, set, del}

  finish-result :
      (s : Store) (d : D) (done later : ℕ) (value : Booking)
      → later < done + 1000 * result_ttl_seconds
      → get (finish r key fingerprint done (ok value, (s, d))).1.0 later (idem_res key)
        ≡ some (stored fingerprint value)
  unfolding finish
  finish-result s d done later value h =
      laws.get-del_ne _ later (idem_lock key) (idem_res key) (lock-ne key)
      ∙ laws.get-set_self s done later (idem_res key) (stored fingerprint value) result_ttl_seconds
          h

  -- A request that ends well has its result stored for a day.
  pub finish-stored :
      (out : Result Booking × (Store × D)) (done later : ℕ) (value : Booking)
      → (finish r key fingerprint done out).0 ≡ ok value
      → later < done + 1000 * result_ttl_seconds
      → get (finish r key fingerprint done out).1.0 later (idem_res key)
        ≡ some (stored fingerprint value)
  unfolding finish
  finish-stored (err e, w) done later value h within = absurd cc
  finish-stored (ok v, (s, d)) done later value h within =
      finish-result s d done later v within ∙ ap (λ b. some (stored fingerprint b)) (ok-injective h)

  -- However a request ends, its lock is released.
  pub finish-unlocked :
      (out : Result Booking × (Store × D)) (done later : ℕ)
      → get (finish r key fingerprint done out).1.0 later (idem_lock key) ≡ none
  unfolding finish
  finish-unlocked (ok value, (s, d)) done later = laws.get-del_self _ later (idem_lock key)
  finish-unlocked (err e, (s, d)) done later = laws.get-del_self _ later (idem_lock key)

-- The store with the lock of the key.
abbrev pub locked : (r : Redis) → Text → r.Store → ℕ → r.Store
locked r key s now = r.set s now (idem_lock key) (number 1) (some lock_ttl_seconds)

module _ (r : Redis) (laws : Laws r) {D : Type 0} (c : ℕ) (cs : Text)
    (others : r.Store → r.Store) where
  open r use {Store, get, set, del}

  -- With no result and no lock of its key, a request is run.
  pub execute_runs :
      (fingerprint : Text) (now done : ℕ) (fn : Store × D → Result Booking × (Store × D))
      (s : Store) (d : D)
      → as_stored (get s now (idem_res (c ∷ cs))) ≡ none
      → get s now (idem_lock (c ∷ cs)) ≡ none
      → execute r (some (c ∷ cs)) fingerprint others now done fn (s, d)
        ≡ finish r (c ∷ cs) fingerprint done (fn (locked r (c ∷ cs) s now, d))
  unfolding execute execute_with set_nx
  execute_runs fingerprint now done fn s d no_result free =
      rw (no_result, execute, execute_with, free, set_nx) refl

  -- A stored result answers for its key.
  pub answered :
      (f fingerprint : Text) (now done : ℕ) (fn : Store × D → Result Booking × (Store × D))
      (w : Store × D) (value : Booking)
      → get w.0 now (idem_res (c ∷ cs)) ≡ some (stored f value)
      → execute r (some (c ∷ cs)) fingerprint others now done fn w
        ≡ (decode_or_reject (record { fingerprint = f; value = value }) fingerprint, w)
  unfolding execute execute_with
  answered f fingerprint now done fn w value e = rw (ap as_stored e, execute, execute_with) refl

  -- After a request with a key has run and ended well, any request with the key, for a day, changes
  -- nothing: with the same fingerprint it gets the first one's result, with another it is refused.
  pub execute-execute :
      (fingerprint other : Text) (now done later ended : ℕ)
      (fn fn' : Store × D → Result Booking × (Store × D)) (s : Store) (d : D) (value : Booking)
      (out : Store × D)
      → as_stored (get s now (idem_res (c ∷ cs))) ≡ none
      → get s now (idem_lock (c ∷ cs)) ≡ none
      → fn (locked r (c ∷ cs) s now, d) ≡ (ok value, out)
      → later < done + 1000 * result_ttl_seconds
      → let w = (execute r (some (c ∷ cs)) fingerprint others now done fn (s, d)).1 in
        (execute r (some (c ∷ cs)) fingerprint others later ended fn' w ≡ (ok value, w))
        × (text_eq fingerprint other ≡ false
            → execute r (some (c ∷ cs)) other others later ended fn' w ≡ (
              err (
                  unprocessable
                    "Idempotency-Key was already used with a different request payload"),
              w,
            ))
  unfolding decode_or_reject
  execute-execute fingerprint other now done later ended fn fn' s d value out no_result free run
        soon =
      let out_value = ap (λ o. (finish r (c ∷ cs) fingerprint done o).1) run in
      let first = ap (λ o. o.1) (execute_runs fingerprint now done fn s d no_result free) in
      let w = (execute r (some (c ∷ cs)) fingerprint others now done fn (s, d)).1 in
      let left : get w.0 later (idem_res (c ∷ cs)) ≡ some (stored fingerprint value) =
        ap (λ w. get w.0 later (idem_res (c ∷ cs))) (first ∙ out_value)
        ∙ finish-result r laws (c ∷ cs) fingerprint out.0 out.1 done later value soon in
      (
        answered fingerprint fingerprint later ended fn' w value left
            ∙ ap
                (λ t. (
                  if t
                      then ok value
                      else err (
                          unprocessable
                            "Idempotency-Key was already used with a different request payload"),
                  w,
                ))
                (text_eq_refl fingerprint),
        λ ne.
            answered fingerprint other later ended fn' w value left
            ∙ ap
                (λ t. (
                  if t
                      then ok value
                      else err (
                          unprocessable
                            "Idempotency-Key was already used with a different request payload"),
                  w,
                ))
                ne,
      )

  -- While another request holds the lock and has left no result, a request with the key is refused
  -- and not run.
  pub execute_locked :
      (fingerprint : Text) (now done : ℕ) (fn : Store × D → Result Booking × (Store × D))
      (s : Store) (d : D) (holder : Value)
      → as_stored (get s now (idem_res (c ∷ cs))) ≡ none
      → get s now (idem_lock (c ∷ cs)) ≡ some holder
      → as_stored (get (others s) now (idem_res (c ∷ cs))) ≡ none
      → execute r (some (c ∷ cs)) fingerprint others now done fn (s, d) ≡ (
        err (conflict "A request with this Idempotency-Key is already in progress"),
        (others s, d),
      )
  unfolding execute execute_with set_nx when_locked
  execute_locked fingerprint now done fn s d holder no_result held still =
      rw (no_result, execute, execute_with, held, set_nx, still) refl

  -- After a request has run and failed, without leaving a result of the key, the next request with
  -- the key is run.
  pub execute_retries :
      (fingerprint other : Text) (now done later ended : ℕ)
      (fn fn' : Store × D → Result Booking × (Store × D)) (s s' : Store) (d d' : D) (e : HttpError)
      → as_stored (get s now (idem_res (c ∷ cs))) ≡ none
      → get s now (idem_lock (c ∷ cs)) ≡ none
      → fn (locked r (c ∷ cs) s now, d) ≡ (err e, (s', d'))
      → as_stored (get s' later (idem_res (c ∷ cs))) ≡ none
      → execute r
          (some (c ∷ cs))
          other
          others
          later
          ended
          fn'
          (execute r (some (c ∷ cs)) fingerprint others now done fn (s, d)).1
        ≡ finish r
            (c ∷ cs)
            other
            ended
            (fn' (locked r (c ∷ cs) (del s' (idem_lock (c ∷ cs))) later, d'))
  unfolding finish
  execute_retries fingerprint other now done later ended fn fn' s s' d d' e no_result free run
        none_left =
      let first =
        ap (λ o. o.1) (execute_runs fingerprint now done fn s d no_result free)
        ∙ ap (λ o. (finish r (c ∷ cs) fingerprint done o).1) run in
      let none_left' : as_stored (get (del s' (idem_lock (c ∷ cs))) later (idem_res (c ∷ cs)))
          ≡ none =
        ap as_stored
          (laws.get-del_ne s' later (idem_lock (c ∷ cs)) (idem_res (c ∷ cs)) (lock-ne (c ∷ cs)))
        ∙ none_left in
      ap (execute r (some (c ∷ cs)) other others later ended fn') first
      ∙ execute_runs other later ended fn' (del s' (idem_lock (c ∷ cs))) d' none_left'
          (laws.get-del_self s' later (idem_lock (c ∷ cs)))
