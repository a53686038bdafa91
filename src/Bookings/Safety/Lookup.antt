-- ===== src/Bookings/Safety/Lookup.antt =====
-- What an insertion and an update of a booking do to the status that a row sees.
use hotelsb2b.Common.{
  ℕ, ◌≡◌, refl, sym, ap, ◌∙◌, subst, ◌≢◌, inl, inr, Bool, true, some, List, [], ◌∷◌, find,
  update_where, arith, ◌==◌, if◌then◌else◌, Bool-cases, ℕ_discrete,
}
use hotelsb2b.Schema.{BookingStatus, Booking}
use hotelsb2b.Availability.Inventory.{booking_has}

pub booking_has-insert :
    (test : BookingStatus → Bool) (b : Booking) (bs : List Booking) (id : ℕ)
    → booking_has test (b ∷ bs) id ≡ (if b.id == id then test b.status else booking_has test bs id)
unfolding booking_has find
booking_has-insert test b bs id = ground arith

pub booking_has-old :
    (test : BookingStatus → Bool) (b : Booking) (bs : List Booking) (id : ℕ)
    → b.id ≢ id
    → booking_has test (b ∷ bs) id ≡ booking_has test bs id
booking_has-old test b bs id h = ground (arith, booking_has-insert test b bs id)

pub booking_has-found :
    (test : BookingStatus → Bool) (bs : List Booking) (id : ℕ) (b : Booking)
    → find (λ x. x.id == id) bs ≡ some b
    → booking_has test bs id ≡ test b.status
unfolding booking_has
booking_has-found test bs id b found = rw (found, booking_has)

module _ (test : BookingStatus → Bool) (f : Booking → Booking)
    (keeps : (b : Booking) → (f b).id ≡ b.id) where
  pub booking_has-update_other :
      (i id : ℕ) (bs : List Booking)
      → id ≢ i
      → booking_has test (update_where (λ b. b.id == i) f bs) id ≡ booking_has test bs id
  unfolding booking_has find update_where
  booking_has-update_other i id [] n = refl
  booking_has-update_other i id (b ∷ bs) n =
      ground (arith, keeps b, booking_has-update_other i id bs n)

  pub booking_has-update_self :
      (i : ℕ) (bs : List Booking) (b : Booking)
      → find (λ x. x.id == i) bs ≡ some b
      → booking_has test (update_where (λ x. x.id == i) f bs) i ≡ test (f b).status
  unfolding find update_where
  booking_has-update_self i [] b h = absurd (cc)
  booking_has-update_self i (c ∷ bs) b h = elim (Bool-cases (c.id == i)) [
    | inl e ↦
        let same : c ≡ b = ground arith in
        let hit : ((f c).id == i) ≡ true = ground (arith, keeps c) in
        rw (e, booking_has-insert test (f c) _ i, hit) (ap (λ x. test (f x).status) same)
    | inr e ↦
        rw (e, booking_has-insert test c _ i, e) (booking_has-update_self i bs b (ground arith))
  ]

  -- A test that the changed row passes only if it passed it before is passed by no more rows.
  pub booking_has-update :
      (i id : ℕ) (bs : List Booking) (b : Booking)
      → find (λ x. x.id == i) bs ≡ some b
      → (test (f b).status ≡ true → test b.status ≡ true)
      → booking_has test (update_where (λ x. x.id == i) f bs) id ≡ true
      → booking_has test bs id ≡ true
  booking_has-update i id bs b found falls h = elim (ℕ_discrete id i) [
    | yes e ↦
        let now = booking_has-update_self i bs b found in
        let h' = subst (λ j. booking_has test (update_where (λ x. x.id == i) f bs) j ≡ true) e h in
        subst (λ j. booking_has test bs j ≡ true) (sym e)
          (booking_has-found test bs i b found ∙ falls (sym now ∙ h'))
    | no n ↦ sym (booking_has-update_other i id bs n) ∙ h
  ]
