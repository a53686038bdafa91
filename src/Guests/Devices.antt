-- ===== src/Guests/Devices.antt =====
-- Whose device a token is.
use hotelsb2b.Common.{
  ◌≡◌, refl, sym, ap, ◌∙◌, Bool, true, false, not, ◌&&◌, List, [], ◌∷◌, Memᴰ, Text, text_eq,
  text_eq_sound, any, select, Bool-cases, inl, inr, if◌then◌else◌, not_any, update_where-mem,
}
use mathlib.Core.List.Memᴰ
use hotelsb2b.Auth.Subject.{AuthUser}
use hotelsb2b.Guests.{
  DevicePlatform, DeviceToken, staff_owner, guest_owner, register, is_owned_by, unregister,
}

false-elim : {A : Type 0} → false ≡ true → A
false-elim h = absurd cc

-- The row of a registration.
abbrev pub registered : AuthUser → Text → DevicePlatform → DeviceToken
registered user token platform = record {
  token = token;
  platform = platform;
  user_id = staff_owner user;
  guest_id = guest_owner user;
}

-- A device that is registered is the user's alone, whoever had the token before.
register_owner :
    (user : AuthUser) (token : Text) (platform : DevicePlatform) (rows : List DeviceToken)
    (d : DeviceToken)
    → Memᴰ d (register user token platform rows)
    → text_eq d.token token ≡ true
    → d ≡ registered user token platform
unfolding register
register_owner user token platform rows d m h =
    elim (Bool-cases (any (λ d. text_eq d.token token) rows)) [
      | inl known ↦
          let (e, k, same) =
            update_where-mem (λ (d : DeviceToken). text_eq d.token token)
              (λ d. record d {
                user_id = staff_owner user;
                guest_id = guest_owner user;
                platform = platform;
              })
              rows d (rw (known, register) at m) in
          elim (Bool-cases (text_eq e.token token)) [
            | inl hit ↦
                (rw hit at same)
                ∙ ap (λ t. registered user t platform) (text_eq_sound e.token token hit)
            | inr miss ↦
                let same' : d ≡ e = rw miss at same in
                false-elim
                  (sym miss ∙ ap (λ (x : DeviceToken). text_eq x.token token) (sym same') ∙ h)
          ]
      | inr new ↦ elim (Memᴰ.cases_cons (rw (new, register) at m)) [
        | inl e ↦ e
        | inr k ↦ false-elim (sym (not_any _ rows new d k) ∙ h)
      ]
    ]

-- Two tests that agree on the rows select the same.
select-cong :
    (p q : DeviceToken → Bool) (rows : List DeviceToken)
    → ((d : DeviceToken) → Memᴰ d rows → p d ≡ q d)
    → select p rows ≡ select q rows
unfolding select
select-cong p q [] h = refl
select-cong p q (d ∷ rows) h =
    let later = select-cong p q rows (λ e m. h e (Memᴰ.tail m)) in
    elim (Bool-cases (q d)) [
      | inl e ↦ rw (h d (Memᴰ.head refl), e) (ap (λ ds. d ∷ ds) later)
      | inr e ↦ rw (h d (Memᴰ.head refl), e) later
    ]

select-true : (rows : List DeviceToken) → select (λ (d : DeviceToken). true) rows ≡ rows
unfolding select
select-true [] = refl
select-true (d ∷ rows) = ap (λ ds. d ∷ ds) (select-true rows)

-- What `unregister` keeps.
abbrev kept : AuthUser → Text → DeviceToken → Bool
kept v token d = if text_eq d.token token && is_owned_by v d then false else true

kept_own :
    (u v : AuthUser) (token : Text) (platform : DevicePlatform) (rows : List DeviceToken)
    (d : DeviceToken)
    → is_owned_by v (registered u token platform) ≡ true
    → Memᴰ d (register u token platform rows)
    → kept v token d ≡ not (text_eq d.token token)
kept_own u v token platform rows d own m = elim (Bool-cases (text_eq d.token token)) [
  | inl hit ↦
      let mine = ap (is_owned_by v) (register_owner u token platform rows d m hit) ∙ own in
      rw (hit, mine) refl
  | inr miss ↦ rw miss refl
]

kept_foreign :
    (u v : AuthUser) (token : Text) (platform : DevicePlatform) (rows : List DeviceToken)
    (d : DeviceToken)
    → is_owned_by v (registered u token platform) ≡ false
    → Memᴰ d (register u token platform rows)
    → kept v token d ≡ true
kept_foreign u v token platform rows d other m = elim (Bool-cases (text_eq d.token token)) [
  | inl hit ↦
      let foreign = ap (is_owned_by v) (register_owner u token platform rows d m hit) ∙ other in
      rw (hit, foreign) refl
  | inr miss ↦ rw miss refl
]

-- A device that has been registered is the user's alone, whoever had the token before. If the one
-- who unregisters it is the owner, every row of the token goes and no other; for anybody else the
-- attempt changes nothing.
pub unregister-register :
    (u v : AuthUser) (token : Text) (platform : DevicePlatform) (rows : List DeviceToken)
    → ((d : DeviceToken)
        → Memᴰ d (register u token platform rows)
        → text_eq d.token token ≡ true
        → d ≡ registered u token platform)
      × (unregister v token (register u token platform rows) ≡ (
          if is_owned_by v (registered u token platform)
          then select
              (λ (d : DeviceToken). not (text_eq d.token token))
              (register u token platform rows)
          else register u token platform rows))
unfolding unregister
unregister-register u v token platform rows = (
  register_owner u token platform rows,
  elim (Bool-cases (is_owned_by v (registered u token platform))) [
    | inl own ↦ rw own (select-cong _ _ _ (λ d m. kept_own u v token platform rows d own m))
    | inr other ↦ rw other (
        select-cong _ (λ (d : DeviceToken). true) _
          (λ d m. kept_foreign u v token platform rows d other m)
        ∙ select-true _)
  ],
)
