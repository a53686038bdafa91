-- ===== src/Bookings/Controller/Creation.antt =====
-- `create` of bookings.controller.ts.
use hotelsb2b.Common.{ℕ, Bool, Option, List, Text, units, Result}
use hotelsb2b.Schema.{Db, Booking}
use hotelsb2b.Redis.{Redis}
use hotelsb2b.Http.{HttpRequest, context_from_request}
use hotelsb2b.Idempotency.{execute}
use hotelsb2b.Auth.Subject.{AuthUser}
use hotelsb2b.Auth.Access.{Jwt, Secrets}
use hotelsb2b.Auth.Scope.{StaffPropertyAccess}
use hotelsb2b.Bookings.Create.{CreateBookingDto}
use hotelsb2b.Bookings.Create.Service.{World, create}
use hotelsb2b.Bookings.Controller.{BookingsState, Turn, booking_entity, audited, open_route, serve}

module _ (jwt : Jwt) (secrets : Secrets) (grants : List StaffPropertyAccess) (r : Redis)
    (local_time : ℕ → ℕ) (precedes : Text → Text → Bool) (aborts : Bool)
    (fingerprint : CreateBookingDto → Text) where
  -- `() => this.bookings.create(dto, ctx)`, on the store and on the rest of the world.
  unfoldable pub run_create :
      CreateBookingDto
      → HttpRequest
      → Turn r.Store
      → Option AuthUser
      → r.Store × (Db × List ℕ)
      → Result Booking × (r.Store × (Db × List ℕ))
  run_create dto req t user x =
      let w : World r.Store = record { db = x.1.0; store = x.0; queue = x.1.1 } in
      let out =
        create local_time precedes aborts r t.locked t.codes t.queue_accepts t.now w dto
          (context_from_request req user) in
      (out.0, (out.1.store, (out.1.db, out.1.queue)))

  -- The handler of `create`. The fingerprint is that of the method, the path and the body.
  unfoldable pub handle_create :
      CreateBookingDto
      → Option Text
      → HttpRequest
      → Turn r.Store
      → Option AuthUser
      → World r.Store
      → Result Booking × World r.Store
  unfolding run_create
  handle_create dto key req t user w =
      let run = λ (x : r.Store × (Db × List ℕ)). run_create dto req t user x in
      let out =
        execute r key (fingerprint dto) t.others t.now t.done run (w.store, (w.db, w.queue)) in
      (out.0, record { db = out.1.1.0; store = out.1.0; queue = out.1.1.1 })

  -- `POST /bookings`.
  unfoldable pub post_booking :
      CreateBookingDto
      → Option Text
      → HttpRequest
      → Turn r.Store
      → BookingsState r.Store
      → Result Booking × BookingsState r.Store
  unfolding serve handle_create
  post_booking dto key req t s =
      serve jwt secrets grants r open_route (audited (units "Booking") (units "create"))
        booking_entity req t (λ user w. handle_create dto key req t user w) s
