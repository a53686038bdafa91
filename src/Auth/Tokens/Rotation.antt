-- ===== src/Auth/Tokens/Rotation.antt =====
-- What a rotation does to the table of tokens.
use hotelsb2b.Common.{
  ℕ, suc, ◌+◌, ◌≤◌, ◌<◌, ◌≡◌, ◌≢◌, refl, sym, ap, ◌∙◌, subst, true, false, ◌&&◌, Option, none, some,
  ◌∷◌, Memᴰ, Text, text_eq, any, find-mem, update_where, update_where-mem, ok, err, unauthorized,
  arith, ltb, leb, ◌==◌, ==_iff, Bool-cases, Option-cases, inl, inr,
}
use mathlib.Core.List.Memᴰ
use mathlib.Core.Bool.{false≢true}
use hotelsb2b.Auth.Tokens.{
  RefreshToken, TokenDb, RefreshContext, subject_of, user_of, guest_of, is_live, revoke_at,
  revoke_family, find_token, issued, issue_refresh_token, replace_token, issue_next, is_reuse,
  rotate, refresh_ttl_ms, grace_ms,
}

-- The identifiers of the rows identify, and the database has drawn them.
pub record IsTable (db : TokenDb) : Type 0 where
  pub by_id : (t u : RefreshToken) → Memᴰ t db.tokens → Memᴰ u db.tokens → t.id ≡ u.id → t ≡ u
  pub drawn : (t : RefreshToken) → Memᴰ t db.tokens → t.id < db.next_id

-- No token of the family can be presented any more but as a reuse.
abbrev pub IsRevoked : ℕ → TokenDb → Type 0
IsRevoked family db = (t : RefreshToken) → Memᴰ t db.tokens → t.family ≡ family → is_live t ≡ false

pub revoke_family-IsRevoked :
    (now family : ℕ) (db : TokenDb) → IsRevoked family (revoke_family now family db)
unfolding revoke_family is_live
revoke_family-IsRevoked now family db t m e =
    let (u, _, same) =
      update_where-mem (λ (t : RefreshToken). (t.family == family) && is_live t)
        (λ t. record t { revoked_at = some now }) db.tokens t m in
    elim (Bool-cases ((u.family == family) && is_live u)) [
      | inl hit ↦ ap is_live (rw hit at same)
      | inr miss ↦
          let same' : t ≡ u = rw miss at same in
          let here : u.family ≡ family = ap (λ (t : RefreshToken). t.family) (sym same') ∙ e in
          ap is_live same' ∙ ground arith
    ]

-- After the rotation of a token, the token is revoked, and the table has one that is not, for
-- thirty days, in the same family.
pub record IsRotated (hash : Text → Text) (t : RefreshToken) (fresh : Text) (now : ℕ) (db : TokenDb)
    : Type 0 where
  pub old : (u : RefreshToken) → Memᴰ u db.tokens → u.id ≡ t.id → is_live u ≡ false
  pub next : RefreshToken
  pub listed : Memᴰ next db.tokens
  pub hashed : next.token_hash ≡ hash fresh
  pub family : next.family ≡ t.family
  pub live : is_live next ≡ true
  pub expiry : next.expires_at ≡ now + refresh_ttl_ms
  pub subject : subject_of next.user_id next.guest_id ≡ subject_of t.user_id t.guest_id

subject_of_lem :
    (user guest_id : Option ℕ)
    → subject_of (user_of (subject_of user guest_id)) (guest_of (subject_of user guest_id))
      ≡ subject_of user guest_id
subject_of_lem none guest_id = refl
subject_of_lem (some id) guest_id = refl

module _ (hash : Text → Text) (db : TokenDb) (raw fresh : Text) (now : ℕ) (ctx : RefreshContext)
    (t : RefreshToken) where
  -- The table once the new token is written.
  abbrev after_issue : TokenDb
  after_issue = record {
    next_id = suc db.next_id;
    tokens = issued hash db fresh now (subject_of t.user_id t.guest_id) ctx t.family ∷ db.tokens;
  }

  rotate-reuse :
      (at : ℕ)
      → find_token hash db raw ≡ some t
      → now ≤ t.expires_at
      → t.revoked_at ≡ some at
      → at + grace_ms ≤ now
      → rotate hash db raw fresh now ctx
        ≡ (err (unauthorized "Refresh token reuse detected"), revoke_family now t.family db)
  unfolding rotate is_reuse
  rotate-reuse at found h revoked over =
      let valid : ltb t.expires_at now ≡ false = ground arith in
      let late : leb (at + grace_ms) now ≡ true = ground arith in
      rw (found, rotate, valid, revoked, late) refl

  rotate-next :
      find_token hash db raw ≡ some t
      → now ≤ t.expires_at
      → is_reuse now t ≡ false
      → any (λ u. text_eq u.token_hash (hash fresh)) db.tokens ≡ false
      → rotate hash db raw fresh now ctx ≡ (
        ok (record { subject = subject_of t.user_id t.guest_id; refresh = fresh }),
        replace_token hash now t fresh after_issue,
      )
  unfolding rotate issue_next issue_refresh_token
  rotate-next found h ok_now unused =
      let valid : ltb t.expires_at now ≡ false = ground arith in
      rw (found, rotate, valid, ok_now, issue_next, issue_refresh_token, unused) refl

  -- A token that has not expired and was revoked ten seconds ago or earlier is refused, and the whole
  -- family is revoked with it.
  pub rotate-IsRevoked :
      (at : ℕ)
      → find_token hash db raw ≡ some t
      → now ≤ t.expires_at
      → t.revoked_at ≡ some at
      → at + grace_ms ≤ now
      → ((rotate hash db raw fresh now ctx).0 ≡ err (unauthorized "Refresh token reuse detected"))
        × IsRevoked t.family (rotate hash db raw fresh now ctx).1
  rotate-IsRevoked at found h revoked over =
      let out = rotate-reuse at found h revoked over in
      (
        ap (λ o. o.0) out,
        subst (λ o. IsRevoked t.family o.1) (sym out) (revoke_family-IsRevoked now t.family db),
      )

  abbrev new : RefreshToken
  new = issued hash db fresh now (subject_of t.user_id t.guest_id) ctx t.family

  replace_token-IsRotated :
      IsTable db
      → Memᴰ t db.tokens
      → IsRotated hash t fresh now (replace_token hash now t fresh after_issue)
  unfolding issued is_live update_where revoke_at replace_token
  replace_token-IsRotated table m = elim (Option-cases t.revoked_at) [
    | inl e ↦
        rw (e, replace_token)
          record {
            old = replaced-old _;
            next = new;
            listed = rw apart (Memᴰ.head refl);
            hashed = refl;
            family = refl;
            live = refl;
            expiry = refl;
            subject = subject_kept;
          }
    | inr (at, e) ↦
        rw (e, replace_token)
          record {
            old = λ u k same. elim (Memᴰ.cases_cons k) [
              | inl f ↦ absurd (not_new (ap (λ (t : RefreshToken). t.id) (sym f) ∙ same))
              | inr k' ↦ rw (table.by_id u t k' m same) (rw (is_live, e) refl)
            ];
            next = new;
            listed = Memᴰ.head refl;
            hashed = refl;
            family = refl;
            live = refl;
            expiry = refl;
            subject = subject_kept;
          }
  ]
    where
      subject_kept : subject_of new.user_id new.guest_id ≡ subject_of t.user_id t.guest_id
      subject_kept = subject_of_lem t.user_id t.guest_id

      not_new : db.next_id ≢ t.id
      not_new h = let g = table.drawn t m in omega (arith, g, h)

      replaced-old :
          (replacement : Option ℕ) (u : RefreshToken)
          → Memᴰ u (
              update_where
                (λ (t' : RefreshToken). t'.id == t.id)
                (revoke_at now replacement)
                (new ∷ db.tokens))
          → u.id ≡ t.id
          → is_live u ≡ false
      replaced-old replacement u k same =
          let (v, _, f) =
            update_where-mem (λ (t' : RefreshToken). t'.id == t.id) (revoke_at now replacement)
              (new ∷ db.tokens) u k in
          elim (Bool-cases (v.id == t.id)) [
            | inl hit ↦ ap is_live (rw hit at f)
            | inr miss ↦
                let f' : u ≡ v = rw miss at f in
                let same' : v.id ≡ t.id = ap (λ (t : RefreshToken). t.id) (sym f') ∙ same in
                absurd (false≢true (sym miss ∙ (==_iff v.id t.id).1 same'))
          ]

      apart : (db.next_id == t.id) ≡ false
      apart = let h = table.drawn t m in ground arith

  -- A token that is neither expired nor a reuse is rotated, if the new one is not in use: for the
  -- same subject, in the same family; and it is revoked itself.
  pub rotate-IsRotated :
      IsTable db
      → find_token hash db raw ≡ some t
      → now ≤ t.expires_at
      → is_reuse now t ≡ false
      → any (λ u. text_eq u.token_hash (hash fresh)) db.tokens ≡ false
      → ((rotate hash db raw fresh now ctx).0
          ≡ ok (record { subject = subject_of t.user_id t.guest_id; refresh = fresh }))
        × IsRotated hash t fresh now (rotate hash db raw fresh now ctx).1
  unfolding find_token
  rotate-IsRotated table found h ok_now unused =
      let out = rotate-next found h ok_now unused in
      (
        ap (λ o. o.0) out,
        subst (λ o. IsRotated hash t fresh now o.1) (sym out)
            (replace_token-IsRotated table (find-mem _ db.tokens t found).0),
      )
