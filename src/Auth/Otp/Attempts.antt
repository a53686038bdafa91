-- ===== src/Auth/Otp/Attempts.antt =====
-- How often a code may be tried, and that it is used once.
use hotelsb2b.Common.{
  ℕ, suc, ◌+◌, ◌<◌, ◌≡◌, ◌≢◌, refl, sym, ap, ◌∙◌, subst, true, false, some, List, [], ◌∷◌, Memᴰ,
  Text, text_eq, find-mem, find-update_where, update_where-mem, ok, err, bad_request, arith, length,
  leb, ◌==◌, ==_refl, ==_iff, if◌then◌else◌, Bool-cases, inl, inr,
}
use mathlib.Core.Bool.{false≢true}
use hotelsb2b.Auth.Otp.{
  OtpCode, OtpDb, Target, login_of, action_on, is_open, find_open, count_attempt, mark_consumed,
  consume,
}

is_open-counted :
    (target : Target) (t : ℕ) (u : OtpCode)
    → is_open target t (record u { attempts = suc u.attempts }) ≡ is_open target t u
is_open-counted (login_of g) t u = refl
is_open-counted (action_on b) t u = refl

is_open-consumed :
    (target : Target) (t now : ℕ) (u : OtpCode)
    → is_open target t (record u { consumed_at = some now }) ≡ false
is_open-consumed target t now u = ground arith

module _ (hash : Text → Text) (target : Target) where
  -- The table after some guesses, each at its time.
  pub guess_all : List (ℕ × Text) → OtpDb → OtpDb
  guess_all [] db = db
  guess_all ((now, code) ∷ later) db = guess_all later (consume hash target code now db).1

  -- Every guess is a wrong one, before the code expires.
  abbrev pub AllWrong : OtpCode → List (ℕ × Text) → Type 0
  AllWrong o gs =
      (g : ℕ × Text) → Memᴰ g gs → (g.0 < o.expires_at) × (text_eq o.code_hash (hash g.1) ≡ false)

  -- Until it expires, the code is the one that is tried.
  abbrev pub IsTried : OtpCode → OtpDb → Type 0
  IsTried o db = (t : ℕ) → t < o.expires_at → find_open target t db ≡ some o

  abbrev counted : OtpCode → OtpCode
  counted o = record o { attempts = suc o.attempts }

  consume-counts :
      (o : OtpCode) (code : Text) (now : ℕ) (db : OtpDb)
      → find_open target now db ≡ some o
      → o.attempts < o.max_attempts
      → text_eq o.code_hash (hash code) ≡ false
      → (consume hash target code now db).1 ≡ count_attempt o.id db
  unfolding consume
  consume-counts o code now db found few wrong =
      let below : leb o.max_attempts o.attempts ≡ false = ground arith in
      rw (found, consume, below, wrong) refl

  count_attempt-IsTried :
      (o : OtpCode) (db : OtpDb) → IsTried o db → IsTried (counted o) (count_attempt o.id db)
  unfolding find_open count_attempt
  count_attempt-IsTried o db tried t h =
      find-update_where (is_open target t) (λ (u : OtpCode). u.id == o.id)
        (λ u. record u { attempts = suc u.attempts }) db.codes o (is_open-counted target t)
        (tried t h)
      ∙ ap (λ hit. some (if hit then counted o else o)) (==_refl o.id)

  -- Once wrong guesses have used up the attempts of a code, no guess is accepted any more until it
  -- expires, not even the right one.
  pub guess_all-consume :
      (gs : List (ℕ × Text)) (o : OtpCode) (db : OtpDb) (code : Text) (now : ℕ)
      → IsTried o db
      → AllWrong o gs
      → o.attempts + length gs ≡ o.max_attempts
      → now < o.expires_at
      → (consume hash target code now (guess_all gs db)).0 ≡ err (bad_request "Too many attempts")
  unfolding consume guess_all
  guess_all-consume [] o db code now tried wrong used h =
      let found = tried now h in
      let full : leb o.max_attempts o.attempts ≡ true = ground arith in
      rw (found, consume, full) refl
  guess_all-consume ((t, g) ∷ gs) o db code now tried wrong used h =
      let (early, miss) = wrong (t, g) (Memᴰ.head refl) in
      let few : o.attempts < o.max_attempts = omega arith in
      let step = consume-counts o g t db (tried t early) few miss in
      subst
        (λ d.
          (consume hash target code now (guess_all gs d)).0 ≡ err (bad_request "Too many attempts"))
        (sym step)
        (guess_all-consume gs (counted o) (count_attempt o.id db) code now
          (count_attempt-IsTried o db tried) (λ w m. wrong w (Memᴰ.tail m)) (omega arith) h)

  consume_accepts :
      (o : OtpCode) (code : Text) (now : ℕ) (db : OtpDb)
      → find_open target now db ≡ some o
      → o.attempts < o.max_attempts
      → text_eq o.code_hash (hash code) ≡ true
      → consume hash target code now db ≡ (ok tt, mark_consumed now o.id db)
  unfolding consume
  consume_accepts o code now db found few right =
      let below : leb o.max_attempts o.attempts ≡ false = ground arith in
      rw (found, consume, below, right) refl

  mark_consumed-find_open :
      (now later id : ℕ) (db : OtpDb) (u : OtpCode)
      → find_open target later (mark_consumed now id db) ≡ some u
      → u.id ≢ id
  unfolding find_open mark_consumed
  mark_consumed-find_open now later id db u e same =
      let (m, open_now) = find-mem _ (mark_consumed now id db).codes u e in
      let (v, _, f) =
        update_where-mem (λ (o : OtpCode). o.id == id) (λ o. record o { consumed_at = some now })
          db.codes u m in
      elim (Bool-cases (v.id == id)) [
        | inl hit ↦ false≢true (
            sym (ap (is_open target later) (rw hit at f) ∙ is_open-consumed target later now v)
            ∙ open_now)
        | inr miss ↦
            let f' : u ≡ v = rw miss at f in
            false≢true (sym miss ∙ (==_iff v.id id).1 (ap (λ (o : OtpCode). o.id) (sym f') ∙ same))
      ]

  -- A code that is accepted is not found again.
  pub consume_once :
      (o : OtpCode) (code : Text) (now : ℕ) (db : OtpDb)
      → find_open target now db ≡ some o
      → o.attempts < o.max_attempts
      → text_eq o.code_hash (hash code) ≡ true
      → ((consume hash target code now db).0 ≡ ok tt)
        × ((later : ℕ) (u : OtpCode)
            → find_open target later (consume hash target code now db).1 ≡ some u
            → u.id ≢ o.id)
  consume_once o code now db found few right =
      let out = consume_accepts o code now db found few right in
      (
        ap (λ o. o.0) out,
        λ later u e.
            mark_consumed-find_open now later o.id db u
              (subst (λ d. find_open target later d.1 ≡ some u) out e),
      )
