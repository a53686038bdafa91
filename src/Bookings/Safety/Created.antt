-- ===== src/Bookings/Safety/Created.antt =====
-- What a successful `create` has done.
use hotelsb2b.Common.{
  ℕ, ◌≡◌, refl, sym, ap, ap₂, ◌∙◌, subst, inl, inr, Bool, true, false, not, ◌&&◌, Option, none,
  some, List, Memᴰ, find, find-mem, ok, >>=-eq-ok, guard-eq-ok, or_throw-eq-ok, ok-injective, arith,
  Text, ◌==◌, Option-cases,
}
use hotelsb2b.Schema.{Db, Property, Guest, Booking, booking_received}
use hotelsb2b.Dates.{to_date, less_than_one_night}
use hotelsb2b.Notifications.{create_for_booking}
use hotelsb2b.Http.{ActionContext}
use hotelsb2b.Bookings.Create.{
  CreateBookingDto, PrimaryGuestDto, RoomInput, fits_int, total, check_plans, resolve_guest,
  authed_guest, insert_with_unique_code, reserve_rooms,
}
use hotelsb2b.Bookings.Create.Service.{
  booking_row, write_booking, Created, create_in_tx, create_for_dates, create_rows,
}
use hotelsb2b.Bookings.Safety.{IsSafe}
use hotelsb2b.Bookings.Safety.Statuses.{IsSafe-fewer_active}
use hotelsb2b.Bookings.Safety.Reservations.{Reserved, reserve_rooms_sound, sum_prices}
use hotelsb2b.Bookings.Safety.Placement.{DistinctTypes, Reserved-Served, Reserved-DistinctRooms}
use hotelsb2b.Bookings.Safety.Creation.{IsSafe-write_booking}

resolve_guest-IsSafe :
    (db : Db) (p : PrimaryGuestDto) (actor : Option ℕ)
    → IsSafe db
    → IsSafe (resolve_guest db p actor).1
unfolding resolve_guest
resolve_guest-IsSafe db p actor s = elim (Option-cases (authed_guest db actor)) [
  | inl e ↦
      rw (e, resolve_guest) (IsSafe-fewer_active db _ (λ id h. h) refl refl refl (omega arith) s)
  | inr (g, e) ↦ rw (e, resolve_guest) s
]

module _ (local_time : ℕ → ℕ) (precedes : Text → Text → Bool) (aborts : Bool) (locked : List ℕ)
    (codes : ℕ → Text) (now : ℕ) (db : Db) (dto : CreateBookingDto) (ctx : ActionContext) where
  -- The guest and the database after the first step of the transaction.
  abbrev pub guest : Guest
  guest = (resolve_guest db dto.primary_guest ctx.actor_guest_id).0

  abbrev pub db₁ : Db
  db₁ = (resolve_guest db dto.primary_guest ctx.actor_guest_id).1

  -- The run of a transaction that has committed.
  pub record IsRun (property : Property) (check_in check_out : ℕ) (c : Created) : Type 0 where
    pub inputs : List RoomInput
    pub subtotal : ℕ
    pub code : Text
    pub reserved :
        Reserved local_time precedes locked db₁ dto.property_id check_in check_out dto.rooms inputs
    pub summed : subtotal ≡ sum_prices inputs
    pub fits : fits_int subtotal ≡ true
    pub coded : insert_with_unique_code aborts codes db₁.bookings ≡ ok code
    pub booking :
        c.booking ≡ booking_row db₁ dto ctx property guest code check_in check_out subtotal
    pub written :
        c.db
        ≡ create_for_booking now
            (write_booking db₁ c.booking dto inputs)
            c.booking
            booking_received
            guest.email

  create_in_tx-IsRun :
      (property : Property) (check_in check_out : ℕ) (c : Created)
      → create_in_tx local_time precedes aborts locked codes now db dto ctx property check_in
          check_out
        ≡ ok c
      → IsRun property check_in check_out c
  unfolding create_in_tx
  create_in_tx-IsRun property check_in check_out c e =
      let (reserved, r, e₁) =
        >>=-eq-ok
          (reserve_rooms local_time precedes locked db₁ dto.property_id check_in check_out 0
            dto.rooms)
          _ e in
      let (fits, e₂) =
        guard-eq-ok
          (fits_int reserved.1
            && fits_int (total (λ r. r.adults) dto.rooms)
            && fits_int (total (λ r. r.children) dto.rooms))
          _ _ e₁ in
      let (code, coded, e₃) = >>=-eq-ok (insert_with_unique_code aborts codes db₁.bookings) _ e₂ in
      let (served, sum) =
        reserve_rooms_sound local_time precedes locked db₁ dto.property_id check_in check_out 0
          dto.rooms reserved r in
      record {
        inputs = reserved.0;
        subtotal = reserved.1;
        code = code;
        reserved = served;
        summed = omega (arith, sum);
        fits = ground arith;
        coded = coded;
        booking = sym (ap (λ (r : Created). r.booking) (ok-injective e₃));
        written =
            subst
              (λ (r : Created).
                r.db
                ≡ create_for_booking now (write_booking db₁ r.booking dto reserved.0) r.booking
                    booking_received guest.email)
              (ok-injective e₃) refl;
      }

  -- The run of a request that has succeeded: its property, its dates and its transaction.
  pub record IsCreation (c : Created) : Type 0 where
    pub property : Property
    pub check_in : ℕ
    pub check_out : ℕ
    pub listed : Memᴰ property db.properties
    pub active : property.active ≡ true
    pub from : to_date dto.check_in ≡ some check_in
    pub to : to_date dto.check_out ≡ some check_out
    pub some_night : less_than_one_night (some check_in) (some check_out) ≡ false
    pub plans : check_plans db dto property dto.rooms ≡ ok tt
    pub run : IsRun property check_in check_out c

  dates :
      (property : Property) (i o : Option ℕ) (c : Created)
      → create_for_dates local_time precedes aborts locked codes now db dto ctx property i o ≡ ok c
      → (check_in : ℕ) × (check_out : ℕ) × (i ≡ some check_in)
        × (o ≡ some check_out)
        × IsRun property check_in check_out c
  unfolding create_for_dates
  dates property (some i) (some o) c e = (i, o, refl, refl, create_in_tx-IsRun property i o c e)
  dates property none o c e = absurd (cc)
  dates property (some i) none c e = absurd (cc)

  pub create_rows-IsCreation :
      (c : Created)
      → create_rows local_time precedes aborts locked codes now db dto ctx ≡ ok c
      → IsCreation c
  unfolding create_rows
  create_rows-IsCreation c e =
      let (night, e₁) =
        guard-eq-ok (not (less_than_one_night (to_date dto.check_in) (to_date dto.check_out))) _ _
          e in
      let (property, found, e₂) =
        or_throw-eq-ok (find (λ p. p.id == dto.property_id) db.properties) _ _ e₁ in
      let (active, e₃) = guard-eq-ok property.active _ _ e₂ in
      let (_, plans, e₄) = >>=-eq-ok (check_plans db dto property dto.rooms) _ e₃ in
      let (i, o, ei, eo, run) =
        dates property (to_date dto.check_in) (to_date dto.check_out) c e₄ in
      record {
        property = property;
        check_in = i;
        check_out = o;
        listed = (find-mem _ db.properties property found).0;
        active = active;
        from = ei;
        to = eo;
        some_night = at_dates ei eo (not_true night);
        plans = plans;
        run = run;
      }
    where
      not_true : {t : Bool} → not t ≡ true → t ≡ false
      not_true {t = true} h = absurd (cc)
      not_true {t = false} h = refl

      at_dates :
          {i o : Option ℕ} {a b : ℕ}
          → i ≡ some a
          → o ≡ some b
          → less_than_one_night i o ≡ false
          → less_than_one_night (some a) (some b) ≡ false
      at_dates ei eo h = ap₂ (λ x y. less_than_one_night x y) (sym ei) (sym eo) ∙ h

  create_for_booking-IsSafe :
      (d : Db) (b : Booking) (address : Option Text)
      → IsSafe d
      → IsSafe (create_for_booking now d b booking_received address)
  unfolding create_for_booking
  create_for_booking-IsSafe d b address s =
      IsSafe-fewer_active d (create_for_booking now d b booking_received address) (λ id h. h) refl
        refl refl (omega arith) s

  run-IsSafe :
      (property : Property) (check_in check_out : ℕ) (c : Created)
      → IsSafe db
      → DistinctTypes dto.rooms
      → IsRun property check_in check_out c
      → IsSafe c.db
  unfolding booking_row
  run-IsSafe property check_in check_out c s d run =
      let s₁ = resolve_guest-IsSafe db dto.primary_guest ctx.actor_guest_id s in
      let b = booking_row db₁ dto ctx property guest run.code check_in check_out run.subtotal in
      let safe : IsSafe (write_booking db₁ b dto run.inputs) =
        IsSafe-write_booking db₁ b dto run.inputs s₁ refl
          (λ i m.
            (Reserved-Served local_time precedes locked db₁ dto.property_id check_in check_out
              run.reserved i m).placed)
          (Reserved-DistinctRooms local_time precedes locked db₁ dto.property_id check_in check_out
            s₁ run.reserved d) in
      subst IsSafe (sym run.written) (
        create_for_booking-IsSafe (write_booking db₁ c.booking dto run.inputs) c.booking guest.email
          (rw run.booking safe))

  -- From a safe database (no room is booked twice for a night or while it is blocked, and
  -- identifiers identify), a successful booking of rooms of pairwise different types gives a safe
  -- one, whatever the other transactions have locked.
  pub create_rows-IsSafe :
      (c : Created)
      → IsSafe db
      → DistinctTypes dto.rooms
      → create_rows local_time precedes aborts locked codes now db dto ctx ≡ ok c
      → IsSafe c.db
  create_rows-IsSafe c s d e =
      let r = create_rows-IsCreation c e in run-IsSafe r.property r.check_in r.check_out c s d r.run
