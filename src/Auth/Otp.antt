-- ===== src/Auth/Otp.antt =====
-- apps/api/src/auth/otp.service.ts. `hash` is SHA-256, the code that is drawn is a parameter, and
-- so is the environment (`production`). Codes are sent by the log only.
pub mod Attempts
use hotelsb2b.Common.{
  ℕ, suc, ◌+◌, ◌*◌, Bool, true, false, not, ◌&&◌, ◌||◌, Option, none, some, List, [], ◌∷◌, Text,
  text_eq, find, update_where, Result, ok, err, bad_request, or_throw, ltb, leb, ◌==◌,
  if◌then◌else◌,
}
use hotelsb2b.Schema.{Db, Guest, Booking}

-- `CODE_TTL_MS`.
abbrev pub code_ttl_ms : ℕ
code_ttl_ms = 600_000

pub data OtpPurpose : Type 0 where
  login booking_action : OtpPurpose

pub record OtpCode : Type 0 where
  pub id : ℕ
  pub purpose : OtpPurpose
  pub code_hash : Text
  pub guest_id : Option ℕ
  pub booking_id : Option ℕ
  pub destination : Text
  pub expires_at : ℕ
  pub attempts : ℕ
  pub max_attempts : ℕ
  pub consumed_at : Option ℕ

-- The rows, the latest first.
pub record OtpDb : Type 0 where
  pub next_id : ℕ
  pub codes : List OtpCode

-- The `where` that a caller of `consume` gives.
pub data Target : Type 0 where
  login_of : ℕ → Target
  action_on : ℕ → Target

abbrev is_some_of : Option ℕ → ℕ → Bool
is_some_of none n = false
is_some_of (some m) n = m == n

abbrev is_login : OtpPurpose → Bool
is_login login = true
is_login booking_action = false

abbrev pub is_for : Target → OtpCode → Bool
is_for (login_of guest_id) o = is_login o.purpose && is_some_of o.guest_id guest_id
is_for (action_on booking_id) o = not (is_login o.purpose) && is_some_of o.booking_id booking_id

abbrev pub is_unused : Option ℕ → Bool
is_unused none = true
is_unused (some _) = false

-- `consumedAt: null, expiresAt: { gt: new Date() }`.
abbrev pub is_open : Target → ℕ → OtpCode → Bool
is_open target now o = (is_for target o && is_unused o.consumed_at) && ltb now o.expires_at

-- `findFirst`, the latest first.
unfoldable pub find_open : Target → ℕ → OtpDb → Option OtpCode
find_open target now db = find (is_open target now) db.codes

unfoldable pub count_attempt : ℕ → OtpDb → OtpDb
count_attempt id db = record db {
  codes =
      update_where (λ (o : OtpCode). o.id == id) (λ o. record o { attempts = suc o.attempts })
        db.codes;
}

unfoldable pub mark_consumed : ℕ → ℕ → OtpDb → OtpDb
mark_consumed now id db = record db {
  codes =
      update_where (λ (o : OtpCode). o.id == id) (λ o. record o { consumed_at = some now })
        db.codes;
}

-- The row that both `issue…` functions create.
unfoldable pub new_code : ℕ → OtpPurpose → Text → Option ℕ → Option ℕ → Text → OtpDb → OtpDb
new_code now purpose code_hash guest_id booking_id destination db = record {
  next_id = suc db.next_id;
  codes =
      record {
        id = db.next_id;
        purpose = purpose;
        code_hash = code_hash;
        guest_id = guest_id;
        booking_id = booking_id;
        destination = destination;
        expires_at = now + code_ttl_ms;
        attempts = 0;
        max_attempts = 5;
        consumed_at = none;
      }
      ∷ db.codes;
}

-- `findFirst({ where: { email, isAccount: true } })`.
abbrev has_email : Text → Option Text → Bool
has_email email none = false
has_email email (some e) = text_eq e email

unfoldable pub account_of : Db → Text → Option Guest
account_of rows email = find (λ g. has_email email g.email && g.is_account) rows.guests

-- `devReveal`.
unfoldable pub dev_reveal : Bool → Text → Option Text
dev_reveal production code = if production then none else some code

-- `primaryGuest.email ?? primaryGuest.phone`, where an empty destination is none.
abbrev nonempty : Option Text → Option Text
nonempty (some (c ∷ cs)) = some (c ∷ cs)
nonempty _ = none

abbrev pub contact_of : Guest → Option Text
contact_of g = nonempty (elim g.email [ some e ↦ some e | none ↦ g.phone ])

module _ (hash : Text → Text) where
  unfoldable pub consume : Target → Text → ℕ → OtpDb → Result (Unit {0}) × OtpDb
  unfolding find_open count_attempt mark_consumed
  consume target code now db = elim (find_open target now db) [
    | none ↦ (err (bad_request "Invalid or expired code"), db)
    | some otp ↦
        if leb otp.max_attempts otp.attempts
        then (err (bad_request "Too many attempts"), db)
        else if text_eq otp.code_hash (hash code)
        then (ok tt, mark_consumed now otp.id db)
        else (err (bad_request "Invalid or expired code"), count_attempt otp.id db)
  ]

  unfoldable pub issue_login_otp : Bool → Text → ℕ → Db → Text → OtpDb → Option Text × OtpDb
  unfolding new_code account_of dev_reveal
  issue_login_otp production code now rows email db = elim (account_of rows email) [
    | none ↦ (none, db)
    | some g ↦
        (dev_reveal production code, new_code now login (hash code) (some g.id) none email db)
  ]

  unfoldable pub verify_login_otp : Db → Text → Text → ℕ → OtpDb → Result ℕ × OtpDb
  unfolding account_of consume
  verify_login_otp rows email code now db = elim (account_of rows email) [
    | none ↦ (err (bad_request "Invalid code"), db)
    | some g ↦
        let out = consume (login_of g.id) code now db in
        (elim out.0 [ ok _ ↦ ok g.id | err e ↦ err e ], out.1)
  ]

  -- A booking has its guest by a foreign key.
  unfoldable pub issue_booking_otp : Bool → Text → ℕ → Db → ℕ → OtpDb → Result (Option Text) × OtpDb
  unfolding new_code dev_reveal
  issue_booking_otp production code now rows booking_id db =
      elim (find (λ b. b.id == booking_id) rows.bookings) [
        | none ↦ (err (bad_request "Booking not found"), db)
        | some b ↦ elim (find (λ g. g.id == b.primary_guest_id) rows.guests) [
          | none ↦ (err (bad_request "Booking not found"), db)
          | some g ↦ elim (contact_of g) [
            | none ↦ (err (bad_request "No contact on file for this booking"), db)
            | some destination ↦ (
              ok (dev_reveal production code),
              new_code now booking_action (hash code) (some b.primary_guest_id) (some booking_id)
                  destination db,
            )
          ]
        ]
      ]

  unfoldable pub verify_booking_otp : ℕ → Text → ℕ → OtpDb → Result (Unit {0}) × OtpDb
  unfolding consume
  verify_booking_otp booking_id code now db = consume (action_on booking_id) code now db
