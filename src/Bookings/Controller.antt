-- ===== src/Bookings/Controller.antt =====
-- apps/api/src/modules/bookings/bookings.controller.ts: every route behind the guards of the
-- application and within the interceptor of the audit log. The bodies have passed the validation of
-- their classes, and an identifier of the path that is no UUID is `none`. `auditTrail` of
-- bookings.service.ts is here too, since it reads the log. Reads and Creation have the other routes.
pub mod Reads
pub mod Creation
pub mod Served
pub mod Accounts
pub mod Replays
use hotelsb2b.Common.{
  ℕ, ◌*◌, ◌/◌, Bool, true, false, Option, none, some, List, [], ◌∷◌, Text, text_eq, units, find,
  select, take, Result, ok, err, or_throw, bad_request, internal, ◌>>=◌, ◌>>◌, ◌==◌, ◌&&◌,
}
use hotelsb2b.Schema.{
  Db, Booking, BookingRoom, BookingStatus, StaffRole, front_desk, manager, finance, housekeeping,
  admin,
}
use hotelsb2b.Dates.{to_date, day_ms}
use hotelsb2b.Redis.{Redis}
use hotelsb2b.Http.{HttpRequest, context_from_request}
use hotelsb2b.Audit.{AuditLog, AuditMeta, Entity, intercept}
use hotelsb2b.Idempotency.{execute}
use hotelsb2b.Auth.Subject.{AuthUser, staff_user, guest_user}
use hotelsb2b.Auth.Access.{Jwt, Secrets}
use hotelsb2b.Auth.Scope.{StaffPropertyAccess, ScopedResource, booking, property, booking_room}
use hotelsb2b.Auth.Guards.{Route, admit, require_user}
use hotelsb2b.Bookings.Create.{CreateBookingDto}
use hotelsb2b.Bookings.Create.Service.{World, create}
use hotelsb2b.Bookings.Assign.{assign_room}
use hotelsb2b.Bookings.Transition.{transition, cancel}
use hotelsb2b.Bookings.Reading.{
  CancellationPreview, list_for_property, list_for_guest, find_by_id_or_throw, cancellation_preview,
  lookup,
}

-- What the routes act on: what the service acts on, and the audit log, the newest row first.
pub record BookingsState (S : Type 0) : Type 0 where
  pub world : World S
  pub log : List AuditLog

-- What a request meets: the clock when it begins and when its work is done, whether the queue and
-- the audit log take what they are given, the rows that others hold locked, the codes that are
-- drawn, and what other clients do to the store between two commands.
pub record Turn (S : Type 0) : Type 0 where
  pub now : ℕ
  pub done : ℕ
  pub queue_accepts : Bool
  pub audit_accepts : Bool
  pub locked : List ℕ
  pub codes : ℕ → Text
  pub others : S → S

abbrev pub booking_entity : Booking → Entity
booking_entity b = record { id = some b.id; property_id = some b.property_id }

abbrev pub room_entity : BookingRoom → Entity
room_entity br = record { id = some br.id; property_id = some br.property_id }

abbrev audited : Text → Text → Option AuditMeta
audited entity_type action = some (record { entity_type = entity_type; action = action })

-- `@Roles(…)` and `@PropertyScope(…)`.
abbrev pub open_route : Route
open_route = record { roles = []; scope = none; id = none }

abbrev pub scoped : List StaffRole → ScopedResource → Option ℕ → Route
scoped roles resource id = record { roles = roles; scope = some resource; id = id }

abbrev pub desk_roles : List StaffRole
desk_roles = front_desk ∷ manager ∷ admin ∷ []

-- `ParseUUIDPipe`.
abbrev pub parse_uuid : Option ℕ → Result ℕ
parse_uuid id = or_throw id (bad_request "Validation failed (uuid is expected)")

-- `where: { entityType: 'Booking', entityId: bookingId }`.
unfoldable pub is_of_booking : ℕ → AuditLog → Bool
is_of_booking id a =
    text_eq a.entity_type (units "Booking") && elim a.entity_id [ none ↦ false | some i ↦ i == id ]

-- `auditTrail`.
unfoldable pub audit_trail : List AuditLog → ℕ → List AuditLog
unfolding is_of_booking
audit_trail log id = take 100 (select (is_of_booking id) log)

-- `assignRoom` yields the row as it is after the update.
unfoldable pub assign_and_read : Db → Option ℕ → ℕ → Result (BookingRoom × Db)
assign_and_read db id room_id = do
  i ← parse_uuid id
  db' ← assign_room db i room_id
  row ←
      or_throw (find (λ (br : BookingRoom). br.id == i) db'.booking_rooms)
        (internal "Record to update not found")
  ok (row, db')

module _ (r : Redis) where
  -- The bodies of the handlers that change a booking, after `ParseUUIDPipe`.
  unfoldable pub handle_assign : Option ℕ → ℕ → World r.Store → Result BookingRoom × World r.Store
  unfolding assign_and_read
  handle_assign id room_id w = elim (assign_and_read w.db id room_id) [
    | err e ↦ (err e, w)
    | ok (row, db) ↦ (ok row, record w { db = db })
  ]

  unfoldable pub handle_transition :
      Option ℕ
      → BookingStatus
      → Option Text
      → Turn r.Store
      → World r.Store
      → Result Booking × World r.Store
  handle_transition id to reason t w = elim (parse_uuid id) [
    | err e ↦ (err e, w)
    | ok i ↦ transition r t.queue_accepts t.now w i to reason
  ]

  unfoldable pub handle_cancel :
      Option ℕ → Option Text → Turn r.Store → World r.Store → Result Booking × World r.Store
  handle_cancel id reason t w = elim (parse_uuid id) [
    | err e ↦ (err e, w)
    | ok i ↦ cancel r t.queue_accepts t.now w i reason
  ]

module _ (jwt : Jwt) (secrets : Secrets) (grants : List StaffPropertyAccess) (r : Redis) where
  -- A request passes the guards, then its handler, whose reply the interceptor records.
  unfoldable pub serve :
      {A : Type 0}
      → Route
      → Option AuditMeta
      → (A → Entity)
      → HttpRequest
      → Turn r.Store
      → (Option AuthUser → World r.Store → Result A × World r.Store)
      → BookingsState r.Store
      → Result A × BookingsState r.Store
  serve route meta entity req t handler s =
      elim (admit jwt secrets s.world.db grants route req t.now) [
        | err e ↦ (err e, s)
        | ok user ↦
            let out = handler user s.world in
            let logged =
              intercept t.audit_accepts meta (context_from_request req user) entity out.0 s.log in
            (logged.0, record { world = out.1; log = logged.1 })
      ]

  -- `PATCH booking-rooms/:id/assign`.
  unfoldable pub patch_assign :
      Option ℕ
      → ℕ
      → HttpRequest
      → Turn r.Store
      → BookingsState r.Store
      → Result BookingRoom × BookingsState r.Store
  unfolding serve handle_assign
  patch_assign id room_id req t s =
      serve (scoped desk_roles booking_room id)
        (audited (units "BookingRoom") (units "assign_room")) room_entity req t
        (λ user w. handle_assign r id room_id w) s

  -- `POST :id/transition`.
  unfoldable pub post_transition :
      Option ℕ
      → BookingStatus
      → Option Text
      → HttpRequest
      → Turn r.Store
      → BookingsState r.Store
      → Result Booking × BookingsState r.Store
  unfolding serve handle_transition
  post_transition id to reason req t s =
      serve (scoped desk_roles booking id) (audited (units "Booking") (units "transition"))
        booking_entity req t (λ user w. handle_transition r id to reason t w) s

  -- `POST :id/cancel`.
  unfoldable pub post_cancel :
      Option ℕ
      → Option Text
      → HttpRequest
      → Turn r.Store
      → BookingsState r.Store
      → Result Booking × BookingsState r.Store
  unfolding serve handle_cancel
  post_cancel id reason req t s =
      serve (scoped [] booking id) (audited (units "Booking") (units "cancel")) booking_entity req t
        (λ user w. handle_cancel r id reason t w) s
