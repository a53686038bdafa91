-- ===== src/Bookings/Create/Service.antt =====
-- `create` of bookings.service.ts. The database is changed by the transaction as a whole or not at
-- all. `now` is the clock, `accepted` whether the queue takes the job.
use hotelsb2b.Common.{
  ℕ, suc, ◌+◌, Bool, true, not, ◌&&◌, Option, none, some, List, ◌∷◌, ◌++◌, Text, find, length,
  Result, ok, err, or_throw, guard, bad_request, not_found, internal, ◌>>=◌, ◌>>◌, ◌==◌,
}
use hotelsb2b.Schema.{Db, Property, Guest, Booking, pending_payment, booking_received}
use hotelsb2b.Dates.{to_date, less_than_one_night}
use hotelsb2b.Redis.{Redis}
use hotelsb2b.Cache.{bump_property}
use hotelsb2b.Notifications.{create_for_booking, enqueue}
use hotelsb2b.Http.{ActionContext}
use hotelsb2b.Bookings.Create.{
  CreateBookingDto, RoomInput, fits_int, total, check_plans, resolve_guest, insert_with_unique_code,
  room_rows, reserve_rooms,
}

-- What the bookings service acts on: the database, the Redis store and the queue of notifications.
pub record World (S : Type 0) : Type 0 where
  pub db : Db
  pub store : S
  pub queue : List ℕ

-- The row that `tx.booking.create` writes.
unfoldable pub booking_row :
    Db → CreateBookingDto → ActionContext → Property → Guest → Text → ℕ → ℕ → ℕ → Booking
unfolding total
booking_row db dto ctx property guest code check_in check_out subtotal = record {
  id = db.next_id;
  confirmation_code = code;
  property_id = dto.property_id;
  status = pending_payment;
  channel = ctx.channel;
  primary_guest_id = guest.id;
  created_by_user_id = ctx.actor_user_id;
  check_in = check_in;
  check_out = check_out;
  adults = total (λ r. r.adults) dto.rooms;
  children = total (λ r. r.children) dto.rooms;
  rooms_count = length dto.rooms;
  currency = property.currency;
  subtotal_minor = subtotal;
  total_minor = subtotal;
  special_requests = dto.special_requests;
  cancelled_at = none;
  cancel_reason = none;
}

-- The booking with its rooms and its occupant.
unfoldable pub write_booking : Db → Booking → CreateBookingDto → List RoomInput → Db
unfolding room_rows
write_booking db b dto inputs = record db {
  next_id = suc db.next_id + length inputs;
  bookings = b ∷ db.bookings;
  booking_rooms =
      room_rows (suc db.next_id) b.id b.property_id b.check_in b.check_out b.currency inputs
      ++ db.booking_rooms;
  occupants =
      record {
        booking_id = b.id;
        first_name = dto.primary_guest.first_name;
        last_name = dto.primary_guest.last_name;
        is_primary = true;
      }
      ∷ db.occupants;
}

-- What a successful transaction yields.
pub record Created : Type 0 where
  pub booking : Booking
  pub notification_id : ℕ
  pub db : Db

module _ (local_time : ℕ → ℕ) (precedes : Text → Text → Bool) (aborts : Bool) where
  -- The body of the transaction.
  unfoldable pub create_in_tx :
      List ℕ
      → (ℕ → Text)
      → ℕ
      → Db
      → CreateBookingDto
      → ActionContext
      → Property
      → ℕ
      → ℕ
      → Result Created
  create_in_tx locked codes now db dto ctx property check_in check_out =
      let (guest, db₁) = resolve_guest db dto.primary_guest ctx.actor_guest_id in
      do
        reserved ←
            reserve_rooms local_time precedes locked db₁ dto.property_id check_in check_out 0
              dto.rooms
        guard
            (fits_int reserved.1
              && fits_int (total (λ r. r.adults) dto.rooms)
              && fits_int (total (λ r. r.children) dto.rooms))
            (internal "Unable to fit integer value into an INT4")
        code ← insert_with_unique_code aborts codes db₁.bookings
        let booking = booking_row db₁ dto ctx property guest code check_in check_out reserved.1
        let db₂ = write_booking db₁ booking dto reserved.0
        ok (record {
          booking = booking;
          notification_id = db₂.next_id;
          db = create_for_booking now db₂ booking booking_received guest.email;
        })

  -- An invalid date is refused by the database client when it is first sent.
  unfoldable pub create_for_dates :
      List ℕ
      → (ℕ → Text)
      → ℕ
      → Db
      → CreateBookingDto
      → ActionContext
      → Property
      → Option ℕ
      → Option ℕ
      → Result Created
  unfolding create_in_tx
  create_for_dates locked codes now db dto ctx property (some check_in) (some check_out) =
      create_in_tx locked codes now db dto ctx property check_in check_out
  create_for_dates locked codes now db dto ctx property _ _ = err (internal "Invalid Date")

  -- Up to the commit.
  unfoldable pub create_rows :
      List ℕ → (ℕ → Text) → ℕ → Db → CreateBookingDto → ActionContext → Result Created
  unfolding create_for_dates
  create_rows locked codes now db dto ctx = do
    guard (not (less_than_one_night (to_date dto.check_in) (to_date dto.check_out)))
        (bad_request "checkOut must be at least one night after checkIn")
    property ←
        or_throw (find (λ p. p.id == dto.property_id) db.properties)
          (not_found "Property not found")
    guard property.active (not_found "Property not found")
    check_plans db dto property dto.rooms
    create_for_dates locked codes now db dto ctx property (to_date dto.check_in)
        (to_date dto.check_out)

  module _ (r : Redis) where
    unfoldable pub after_create :
        Bool → ℕ → World r.Store → CreateBookingDto → Created → World r.Store
    after_create accepted now w dto c = record {
      db = c.db;
      store = bump_property r w.store now dto.property_id;
      queue = enqueue accepted w.queue c.notification_id;
    }

    unfoldable pub create :
        List ℕ
        → (ℕ → Text)
        → Bool
        → ℕ
        → World r.Store
        → CreateBookingDto
        → ActionContext
        → Result Booking × World r.Store
    create locked codes accepted now w dto ctx = elim (create_rows locked codes now w.db dto ctx) [
      | ok c ↦ (ok c.booking, after_create accepted now w dto c)
      | err e ↦ (err e, w)
    ]
