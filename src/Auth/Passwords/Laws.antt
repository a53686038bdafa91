-- ===== src/Auth/Passwords/Laws.antt =====
-- A password against what was stored for a password.
use hotelsb2b.Common.{
  ℕ, ◌≡◌, ◌≢◌, ◌↔◌, refl, sym, ap, ◌∙◌, true, false, ◌&&◌, List, [], ◌∷◌, ◌++◌, Text, text_eq,
  text_eq_sound, text_eq_refl, text_eq_iff, units,
}
use hotelsb2b.Auth.Passwords.{
  to_hex, split, dollar, is_empty, hash_password, verify_parts, verify_password,
}
use hotelsb2b.Auth.Passwords.Hex.{
  AreBytes, from_hex-to_hex, to_hex-IsPlain, split-append, split-plain,
}

to_hex-nonempty : (bs : List ℕ) → bs ≢ [] → is_empty (to_hex bs) ≡ false
unfolding to_hex
to_hex-nonempty [] h = absurd (h refl)
to_hex-nonempty (b ∷ bs) h = refl

module _ (scrypt : Text → List ℕ → List ℕ)
    (derived_bytes : (p : Text) (salt : List ℕ) → AreBytes (scrypt p salt) × (scrypt p salt ≢ []))
    (salt : List ℕ) (salt_bytes : AreBytes salt) (drawn : salt ≢ []) where
  split-hash_password :
      (p : Text)
      → split (hash_password scrypt salt p)
        ≡ units "scrypt" ∷ to_hex salt ∷ to_hex (scrypt p salt) ∷ []
  unfolding hash_password
  split-hash_password p =
      split-append (units "scrypt") (to_hex salt ++ dollar ∷ to_hex (scrypt p salt))
        (refl, (refl, (refl, (refl, (refl, (refl, tt))))))
      ∙ ap (λ ps. units "scrypt" ∷ ps)
          (split-append (to_hex salt) (to_hex (scrypt p salt)) (to_hex-IsPlain salt salt_bytes)
            ∙ ap (λ ps. to_hex salt ∷ ps)
                (split-plain _ (to_hex-IsPlain (scrypt p salt) (derived_bytes p salt).0)))

  verify_password-derived :
      (p q : Text)
      → verify_password scrypt q (hash_password scrypt salt p)
        ≡ text_eq (scrypt p salt) (scrypt q salt)
  unfolding verify_password verify_parts
  verify_password-derived p q =
      rw
        (
          split-hash_password p,
          verify_parts,
          to_hex-nonempty salt drawn,
          to_hex-nonempty (scrypt p salt) (derived_bytes p salt).1,
          from_hex-to_hex salt salt_bytes,
          from_hex-to_hex (scrypt p salt) (derived_bytes p salt).0,
        )
        (ap (λ b. ((b && true) && true) && text_eq (scrypt p salt) (scrypt q salt))
          (text_eq_refl (units "scrypt")))

  -- A password is accepted against the text that was stored for a password exactly when both give
  -- the same key under the salt that was drawn; so the password itself always is.
  pub verify_password-hash_password :
      (p q : Text)
      → (verify_password scrypt p (hash_password scrypt salt p) ≡ true)
        × ((verify_password scrypt q (hash_password scrypt salt p) ≡ true)
            ↔ (scrypt p salt ≡ scrypt q salt))
  verify_password-hash_password p q = (
    verify_password-derived p p ∙ text_eq_refl (scrypt p salt),
    (
      λ e. text_eq_sound _ _ (sym (verify_password-derived p q) ∙ e),
      λ e. verify_password-derived p q ∙ (text_eq_iff _ _).1 e,
    ),
  )
