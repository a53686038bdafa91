-- ===== src/Auth/Tokens/Revocation.antt =====
-- A token that has been revoked moments ago.
use hotelsb2b.Common.{
  ℕ, ◌+◌, ◌≤◌, ◌<◌, ◌≡◌, refl, sym, ap, ◌∙◌, subst, true, false, ◌&&◌, some, Text, text_eq, any,
  find-update_where, Bool-cases, inl, inr, update_where-mem, ok, arith, ◌==◌, ==_refl,
  if◌then◌else◌,
}
use hotelsb2b.Auth.Tokens.{
  RefreshToken, TokenDb, RefreshContext, subject_of, is_live, revoke_family, find_token, is_reuse,
  rotate, revoke_by_raw, grace_ms,
}
use hotelsb2b.Auth.Tokens.Rotation.{
  IsTable, IsRotated, IsRevoked, revoke_family-IsRevoked, rotate-IsRotated,
}

-- A row after `revokeFamily`.
abbrev after : ℕ → ℕ → RefreshToken → RefreshToken
after now family u =
    if (u.family == family) && is_live u then record u { revoked_at = some now } else u

after-id : (now family : ℕ) (u : RefreshToken) → (after now family u).id ≡ u.id
after-id now family u = elim (Bool-cases ((u.family == family) && is_live u)) [
  | inl e ↦ rw e refl
  | inr e ↦ rw e refl
]

revoke_family-IsTable :
    (now family : ℕ) (db : TokenDb) → IsTable db → IsTable (revoke_family now family db)
unfolding revoke_family
revoke_family-IsTable now family db table = record {
  by_id = λ x y mx my same.
      let (u, mu, ex) = update_where-mem _ _ db.tokens x mx in
      let (v, mv, ey) = update_where-mem _ _ db.tokens y my in
      let one = table.by_id u v mu mv (
        sym (after-id now family u)
        ∙ sym (ap id_field ex)
        ∙ same
        ∙ ap id_field ey
        ∙ after-id now family v) in
      ex ∙ ap (after now family) one ∙ sym ey;
  drawn = λ x mx.
      let (u, mu, ex) = update_where-mem _ _ db.tokens x mx in
      let least = table.drawn u mu in
      let kept : x.id ≡ u.id = ap id_field ex ∙ after-id now family u in omega (arith, least, kept);
}
  where
    id_field : RefreshToken → ℕ
    id_field t = t.id

module _ (hash : Text → Text) (db : TokenDb) (raw : Text) (now : ℕ) (t : RefreshToken) where
  revoke_by_raw-found :
      find_token hash db raw ≡ some t
      → revoke_by_raw hash now raw db ≡ revoke_family now t.family db
  unfolding revoke_by_raw
  revoke_by_raw-found found = rw (revoke_by_raw, found) refl

  -- A logout leaves no token of the family that is not revoked.
  pub revoke_by_raw-IsRevoked :
      find_token hash db raw ≡ some t → IsRevoked t.family (revoke_by_raw hash now raw db)
  revoke_by_raw-IsRevoked found =
      subst (IsRevoked t.family) (sym (revoke_by_raw-found found))
        (revoke_family-IsRevoked now t.family db)

  -- The row of the token, once it is logged out.
  abbrev pub logged_out : RefreshToken
  logged_out = record t { revoked_at = some now }

  find_token-revoked :
      find_token hash db raw ≡ some t
      → is_live t ≡ true
      → find_token hash (revoke_family now t.family db) raw ≡ some logged_out
  unfolding find_token revoke_family
  find_token-revoked found live =
      let hit : ((t.family == t.family) && is_live t) ≡ true = rw (==_refl t.family, live) refl in
      find-update_where (λ (u : RefreshToken). text_eq u.token_hash (hash raw))
        (λ (u : RefreshToken). (u.family == t.family) && is_live u)
        (λ u. record u { revoked_at = some now }) db.tokens t (λ u. refl) found
      ∙ ap (λ h. some (if h then logged_out else t)) hit

  -- A token that is logged out while it is live can still be exchanged, for as long as the ten
  -- seconds of the rotation race last and it has not expired, for one that is not revoked, if the
  -- new one is not in use.
  pub rotate-revoke_by_raw :
      (fresh : Text) (later : ℕ) (ctx : RefreshContext)
      → IsTable db
      → find_token hash db raw ≡ some t
      → is_live t ≡ true
      → later < now + grace_ms
      → later ≤ t.expires_at
      → any (λ u. text_eq u.token_hash (hash fresh)) (revoke_by_raw hash now raw db).tokens ≡ false
      → ((rotate hash (revoke_by_raw hash now raw db) raw fresh later ctx).0
          ≡ ok (record { subject = subject_of t.user_id t.guest_id; refresh = fresh }))
        × IsRotated hash logged_out fresh later
            (rotate hash (revoke_by_raw hash now raw db) raw fresh later ctx).1
  unfolding is_reuse
  rotate-revoke_by_raw fresh later ctx table found live soon valid unused =
      let out = revoke_by_raw-found found in
      let no_reuse : is_reuse later logged_out ≡ false = ground arith in
      rotate-IsRotated hash (revoke_by_raw hash now raw db) raw fresh later ctx logged_out
        (subst IsTable (sym out) (revoke_family-IsTable now t.family db table))
        (subst (λ d. find_token hash d raw ≡ some logged_out) (sym out)
          (find_token-revoked found live))
        valid no_reuse unused
