-- ===== src/Bookings/Reading/Access.antt =====
-- What `lookup` discloses.
use hotelsb2b.Common.{
  ◌≡◌, ◌⊎◌, inl, inr, refl, true, none, Memᴰ, find, find-mem, Text, text_eq, text_eq_sound,
  to_upper, to_lower, trim, ok, err, not_found, ◌==◌, Bool-cases, Option-cases,
}
use hotelsb2b.Schema.{Db, Booking, Guest}
use hotelsb2b.Bookings.Reading.{lookup}

-- The booking of the code and its guest, whose last name is the one that is given, up to case and
-- to space around it.
pub record IsMatch (db : Db) (confirmation_code last_name : Text) (b : Booking) : Type 0 where
  pub guest : Guest
  pub listed : Memᴰ b db.bookings
  pub code : b.confirmation_code ≡ to_upper confirmation_code
  pub guest_listed : Memᴰ guest db.guests
  pub guest_id : (guest.id == b.primary_guest_id) ≡ true
  pub name : to_lower guest.last_name ≡ to_lower (trim last_name)

-- Where every booking has its guest, a lookup gives a booking whose code and whose guest's last
-- name are those of the request, or one and the same error, whether it is the code or the name that
-- is wrong.
pub lookup_lem :
    (db : Db) (confirmation_code last_name : Text)
    → ((b : Booking)
        → Memᴰ b db.bookings
        → find (λ g. g.id == b.primary_guest_id) db.guests ≡ none
        → ⊥)
    → ((b : Booking) × (lookup db confirmation_code last_name ≡ ok b)
        × IsMatch db confirmation_code last_name b)
      ⊎ (lookup db confirmation_code last_name ≡ err (not_found "No booking matches those details"))
unfolding lookup
lookup_lem db code name has_guest =
    elim (Option-cases (find (λ b. text_eq b.confirmation_code (to_upper code)) db.bookings)) [
      | inl e ↦ inr (rw e refl)
      | inr (b, e) ↦
          let (listed, same_code) = find-mem _ db.bookings b e in
          elim (Option-cases (find (λ g. g.id == b.primary_guest_id) db.guests)) [
            | inl f ↦ absurd (has_guest b listed f)
            | inr (g, f) ↦
                let (guest_listed, guest_id) = find-mem _ db.guests g f in
                elim (Bool-cases (text_eq (to_lower g.last_name) (to_lower (trim name)))) [
                  | inl same ↦ inl (
                    b,
                    rw (e, f, same) refl,
                    record {
                      guest = g;
                      listed = listed;
                      code = text_eq_sound _ _ same_code;
                      guest_listed = guest_listed;
                      guest_id = guest_id;
                      name = text_eq_sound _ _ same;
                    },
                  )
                  | inr other ↦ inr (rw (e, f, other) refl)
                ]
          ]
    ]
