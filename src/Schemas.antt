-- ===== src/Schemas.antt =====
-- packages/shared/src/booking.ts: the Zod schemas of the forms and of the AI tools, as tests on
-- bodies of their shape. Identifiers have their form by the model's types, and a field that is no
-- text or no whole number has no body here. The pattern of an e-mail address is Zod's: a parameter.
use hotelsb2b.Common.{
  ℕ, Bool, true, false, ◌&&◌, ◌||◌, Option, none, some, [], ◌∷◌, Text, all, length, leb, ltb, ◌==◌,
}
use hotelsb2b.Dates.{is_digit}
use hotelsb2b.Bookings.Create.{CreateBookingRoomDto, PrimaryGuestDto, CreateBookingDto}

-- `z.string().min(lo).max(hi)`.
abbrev pub is_between : ℕ → ℕ → Text → Bool
is_between lo hi t = leb lo (length t) && leb (length t) hi

-- `z.string().max(hi).optional()`.
abbrev pub is_at_most : ℕ → Option Text → Bool
is_at_most hi none = true
is_at_most hi (some t) = leb (length t) hi

-- `/^\d{4}-\d{2}-\d{2}/`.
unfoldable pub starts_with_day : Text → Bool
starts_with_day (y₁ ∷ y₂ ∷ y₃ ∷ y₄ ∷ s₁ ∷ m₁ ∷ m₂ ∷ s₂ ∷ d₁ ∷ d₂ ∷ _) =
    (is_digit y₁ && is_digit y₂ && is_digit y₃ && is_digit y₄ && (s₁ == b'-'))
    && (is_digit m₁ && is_digit m₂ && (s₂ == b'-') && is_digit d₁ && is_digit d₂)
starts_with_day _ = false

-- `/^\d{4}-\d{2}-\d{2}$/`.
unfoldable pub is_day : Text → Bool
unfolding starts_with_day
is_day t = starts_with_day t && (length t == 10)

-- `a < b` on texts.
unfoldable pub text_ltb : Text → Text → Bool
text_ltb [] [] = false
text_ltb [] (b ∷ t) = true
text_ltb (a ∷ s) [] = false
text_ltb (a ∷ s) (b ∷ t) = ltb a b || ((a == b) && text_ltb s t)

pub record SearchQuery : Type 0 where
  pub destination : Option Text
  pub check_in : Text
  pub check_out : Text
  pub adults : ℕ
  pub children : ℕ

-- `SearchQuerySchema`, with its refinement.
unfoldable pub search_query_schema : SearchQuery → Bool
unfolding is_day text_ltb
search_query_schema v =
    ((((is_at_most 120 v.destination && is_day v.check_in) && is_day v.check_out)
        && (leb 1 v.adults && leb v.adults 20))
      && leb v.children 20)
    && text_ltb v.check_in v.check_out

pub record GuestRegister : Type 0 where
  pub email : Text
  pub password : Text
  pub first_name : Text
  pub last_name : Text

pub record Login : Type 0 where
  pub email : Text
  pub password : Text

-- `.default(2)` and `.default(0)` are for a field that is missing.
pub record AiAvailability : Type 0 where
  pub property_id : ℕ
  pub check_in : Text
  pub check_out : Text
  pub adults : Option ℕ
  pub children : Option ℕ

abbrev pub or_default : ℕ → Option ℕ → ℕ
or_default d none = d
or_default d (some n) = n

unfoldable pub ai_availability_schema : AiAvailability → Bool
unfolding starts_with_day
ai_availability_schema v =
    ((starts_with_day v.check_in && starts_with_day v.check_out)
      && (leb 1 (or_default 2 v.adults) && leb (or_default 2 v.adults) 20))
    && leb (or_default 0 v.children) 20

pub record AiOtpRequest : Type 0 where
  pub confirmation_code : Text
  pub last_name : Text

unfoldable pub ai_otp_request_schema : AiOtpRequest → Bool
ai_otp_request_schema v = is_between 1 20 v.confirmation_code && is_between 1 100 v.last_name

pub record AiOtpVerify : Type 0 where
  pub booking_id : ℕ
  pub code : Text

unfoldable pub ai_otp_verify_schema : AiOtpVerify → Bool
ai_otp_verify_schema v = length v.code == 6

pub record AiBookingAction : Type 0 where
  pub verification_token : Text
  pub reason : Option Text

unfoldable pub ai_booking_action_schema : AiBookingAction → Bool
ai_booking_action_schema v = is_between 1 2000 v.verification_token && is_at_most 500 v.reason

module _ (is_email : Text → Bool) where
  abbrev pub optional_email : Option Text → Bool
  optional_email none = true
  optional_email (some e) = is_email e

  unfoldable pub primary_guest_schema : PrimaryGuestDto → Bool
  primary_guest_schema v =
      ((is_between 1 100 v.first_name && is_between 1 100 v.last_name) && optional_email v.email)
      && is_at_most 30 v.phone

  -- `CreateBookingSchema`.
  unfoldable pub create_booking_schema : CreateBookingDto → Bool
  unfolding is_day primary_guest_schema
  create_booking_schema v =
      ((((is_day v.check_in && is_day v.check_out) && leb 1 (length v.rooms))
          && all (λ (r : CreateBookingRoomDto). leb 1 r.adults) v.rooms)
        && primary_guest_schema v.primary_guest)
      && is_at_most 1000 v.special_requests

  unfoldable pub guest_register_schema : GuestRegister → Bool
  guest_register_schema v =
      ((is_email v.email && is_between 10 200 v.password) && is_between 1 100 v.first_name)
      && is_between 1 100 v.last_name

  unfoldable pub login_schema : Login → Bool
  login_schema v = is_email v.email && is_between 1 200 v.password
