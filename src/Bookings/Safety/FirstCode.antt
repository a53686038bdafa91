-- ===== src/Bookings/Safety/FirstCode.antt =====
-- The confirmation code of a booking that is written, where a failed statement aborts its
-- transaction.
use hotelsb2b.Common.{
  ℕ, ◌≡◌, refl, sym, ap, ◌∙◌, subst, inl, inr, Bool, true, false, Option, List, Text, text_eq, any,
  ok, ok-injective, Bool-cases, Option-cases,
}
use hotelsb2b.Schema.{Db, Booking}
use hotelsb2b.Http.{ActionContext}
use hotelsb2b.Bookings.Create.{
  CreateBookingDto, PrimaryGuestDto, resolve_guest, authed_guest, insert_with_unique_code,
}
use hotelsb2b.Bookings.Create.Codes.{insert_with_unique_code_iff}
use hotelsb2b.Bookings.Create.Service.{booking_row, Created, create_rows}
use hotelsb2b.Bookings.Safety.Created.{create_rows-IsCreation}

resolve_guest-bookings :
    (db : Db) (p : PrimaryGuestDto) (actor : Option ℕ)
    → (resolve_guest db p actor).1.bookings ≡ db.bookings
unfolding resolve_guest
resolve_guest-bookings db p actor = elim (Option-cases (authed_guest db actor)) [
  | inl e ↦ rw (e, resolve_guest) refl
  | inr (g, e) ↦ rw (e, resolve_guest) refl
]

abbrev in_use : List Booking → Text → Bool
in_use bookings code = any (λ b. text_eq b.confirmation_code code) bookings

first_code_lem :
    (codes : ℕ → Text) (bookings : List Booking) (code : Text)
    → insert_with_unique_code true codes bookings ≡ ok code
    → (code ≡ codes 0) × (in_use bookings (codes 0) ≡ false)
first_code_lem codes bookings code e = elim (Bool-cases (in_use bookings (codes 0))) [
  | inl used ↦ absurd (cc (sym ((insert_with_unique_code_iff codes bookings).1 used) ∙ e))
  | inr free ↦
      (sym (ok-injective (sym ((insert_with_unique_code_iff codes bookings).0 free) ∙ e)), free)
]

module _ (local_time : ℕ → ℕ) (precedes : Text → Text → Bool) (locked : List ℕ) (codes : ℕ → Text)
    (now : ℕ) (db : Db) (dto : CreateBookingDto) (ctx : ActionContext) where
  -- Where a failed statement aborts its transaction, the retries of a confirmation code never help:
  -- a booking that is written has the first code that was drawn for it, and no other booking had this
  -- code.
  pub create_rows-first_code :
      (c : Created)
      → create_rows local_time precedes true locked codes now db dto ctx ≡ ok c
      → (c.booking.confirmation_code ≡ codes 0) × (in_use db.bookings (codes 0) ≡ false)
  unfolding booking_row
  create_rows-first_code c e =
      let made = create_rows-IsCreation local_time precedes true locked codes now db dto ctx c e in
      let (first, free) = first_code_lem codes _ made.run.code made.run.coded in
      (
        ap (λ (b : Booking). b.confirmation_code) made.run.booking ∙ first,
        subst (λ l. in_use l (codes 0) ≡ false)
            (resolve_guest-bookings db dto.primary_guest ctx.actor_guest_id) free,
      )
