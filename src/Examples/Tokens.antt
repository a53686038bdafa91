-- ===== src/Examples/Tokens.antt =====
-- The theorems on refresh tokens at a table with one token.
use hotelsb2b.Common.{
  ◌<◌, ◌≡◌, refl, true, false, none, some, [], ◌∷◌, Memᴰ, Text, text_eq, any, find, update_where,
  ok, err, unauthorized, arith, sym, subst, ◌∙◌,
}
use hotelsb2b.Auth.Tokens.{
  RefreshToken, TokenDb, RefreshContext, guest, is_live, revoke_family, find_token, rotate,
  revoke_by_raw,
}
use hotelsb2b.Auth.Tokens.Rotation.{IsTable, IsRotated, IsRevoked, rotate-IsRevoked}
use hotelsb2b.Auth.Tokens.Revocation.{logged_out, rotate-revoke_by_raw}

abbrev plain : Text → Text
plain s = s

abbrev raw : Text
raw = b'r' ∷ []

abbrev fresh : Text
fresh = b'f' ∷ []

abbrev ctx : RefreshContext
ctx = record { user_agent = none; ip_address = none }

abbrev token : RefreshToken
token = record {
  id = 1;
  user_id = none;
  guest_id = some 7;
  token_hash = raw;
  family = 5;
  expires_at = 2_000_000;
  revoked_at = none;
  replaced_by_id = none;
  user_agent = none;
  ip_address = none;
}

abbrev rotated_token : RefreshToken
rotated_token = record token { revoked_at = some 1_000 }

abbrev table : RefreshToken → TokenDb
table t = record { next_id = 2; tokens = t ∷ [] }

only : (t : RefreshToken) (u v : RefreshToken) → Memᴰ u (t ∷ []) → Memᴰ v (t ∷ []) → u ≡ v
only t u v (Memᴰ.head e) (Memᴰ.head f) = e ∙ sym f
only t u v (Memᴰ.head e) (Memᴰ.tail m) = elim m [ ]
only t u v (Memᴰ.tail m) k = elim m [ ]

table-IsTable : IsTable (table token)
table-IsTable = record {
  by_id = λ u v mu mv _. only token u v mu mv;
  drawn = λ u mu. subst (λ w. w.id < 2) (only token token u (Memᴰ.head refl) mu) (omega arith);
}

found : find_token plain (table token) raw ≡ some token
unfolding find_token find text_eq
found = refl

found_rotated : find_token plain (table rotated_token) raw ≡ some rotated_token
unfolding find_token find text_eq
found_rotated = refl

rotate-IsRevoked_example :
    ((rotate plain (table rotated_token) raw fresh 20_000 ctx).0
      ≡ err (unauthorized "Refresh token reuse detected"))
    × IsRevoked 5 (rotate plain (table rotated_token) raw fresh 20_000 ctx).1
rotate-IsRevoked_example =
    rotate-IsRevoked plain (table rotated_token) raw fresh 20_000 ctx rotated_token 1_000
      found_rotated (omega arith) refl (omega arith)

live : is_live token ≡ true
unfolding is_live
live = refl

still_unused :
    any (λ u. text_eq u.token_hash fresh) (revoke_by_raw plain 15_000 raw (table token)).tokens
    ≡ false
unfolding any text_eq revoke_by_raw find revoke_family update_where
still_unused = refl

rotate-revoke_by_raw_example :
    ((rotate plain (revoke_by_raw plain 15_000 raw (table token)) raw fresh 20_000 ctx).0
      ≡ ok (record { subject = guest (some 7); refresh = fresh }))
    × IsRotated plain
        (logged_out plain (table token) raw 15_000 token)
        fresh
        20_000
        (rotate plain (revoke_by_raw plain 15_000 raw (table token)) raw fresh 20_000 ctx).1
rotate-revoke_by_raw_example =
    rotate-revoke_by_raw plain (table token) raw 15_000 token fresh 20_000 ctx table-IsTable found
      live (omega arith) (omega arith) still_unused
