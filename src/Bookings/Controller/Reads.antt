-- ===== src/Bookings/Controller/Reads.antt =====
-- The routes of bookings.controller.ts that only read.
use hotelsb2b.Common.{
  ℕ, ◌*◌, ◌/◌, Option, none, some, List, [], ◌∷◌, Text, units, Result, ok, err, internal, ◌>>=◌,
}
use hotelsb2b.Schema.{Db, Booking, front_desk, manager, finance, housekeeping, admin}
use hotelsb2b.Dates.{to_date, day_ms}
use hotelsb2b.Redis.{Redis}
use hotelsb2b.Http.{HttpRequest}
use hotelsb2b.Audit.{AuditLog}
use hotelsb2b.Auth.Subject.{AuthUser, staff_user, guest_user}
use hotelsb2b.Auth.Access.{Jwt, Secrets}
use hotelsb2b.Auth.Scope.{StaffPropertyAccess, booking, property}
use hotelsb2b.Auth.Guards.{Route, admit, require_user}
use hotelsb2b.Bookings.Reading.{
  CancellationPreview, list_for_property, list_for_guest, find_by_id_or_throw, cancellation_preview,
  lookup,
}
use hotelsb2b.Bookings.Controller.{BookingsState, open_route, scoped, parse_uuid, audit_trail}

module _ (jwt : Jwt) (secrets : Secrets) (grants : List StaffPropertyAccess) (r : Redis) where
  -- A route that only reads.
  unfoldable pub read_only :
      {A : Type 0}
      → Route
      → HttpRequest
      → ℕ
      → (Option AuthUser → Result A)
      → BookingsState r.Store
      → Result A
  read_only route req now handler s = admit jwt secrets s.world.db grants route req now >>= handler

  -- `GET :id`, `GET :id/cancellation-preview` and `GET :id/audit`.
  unfoldable pub get_booking_by_id :
      Option ℕ → HttpRequest → ℕ → BookingsState r.Store → Result Booking
  unfolding read_only
  get_booking_by_id id req now s =
      read_only (scoped [] booking id) req now
        (λ user. parse_uuid id >>= λ i. find_by_id_or_throw s.world.db i) s

  unfoldable pub get_cancellation_preview :
      Option ℕ → HttpRequest → ℕ → BookingsState r.Store → Result CancellationPreview
  unfolding read_only
  get_cancellation_preview id req now s =
      read_only (scoped [] booking id) req now
        (λ user. parse_uuid id >>= λ i. cancellation_preview s.world.db now i) s

  unfoldable pub get_audit :
      Option ℕ → HttpRequest → ℕ → BookingsState r.Store → Result (List AuditLog)
  unfolding read_only
  get_audit id req now s =
      read_only (scoped (front_desk ∷ manager ∷ finance ∷ admin ∷ []) booking id) req now
        (λ user. parse_uuid id >>= λ i. ok (audit_trail s.log i)) s

  -- `POST lookup`.
  unfoldable pub post_lookup :
      Text → Text → HttpRequest → ℕ → BookingsState r.Store → Result Booking
  unfolding read_only
  post_lookup confirmation_code last_name req now s =
      read_only open_route req now (λ user. lookup s.world.db confirmation_code last_name) s

  abbrev own_bookings : Db → AuthUser → List Booking
  own_bookings db (guest_user id email) = list_for_guest db id
  own_bookings db (staff_user id email role) = []

  -- `GET mine`.
  unfoldable pub get_mine : HttpRequest → ℕ → BookingsState r.Store → Result (List Booking)
  unfolding read_only
  get_mine req now s =
      read_only open_route req now
        (λ user. require_user user >>= λ u. ok (own_bookings s.world.db u)) s

  -- An invalid date is refused by the database client.
  abbrev window : Db → ℕ → Option ℕ → Option ℕ → Result (List Booking)
  window db property_id (some from) (some to) = ok (list_for_property db property_id from to)
  window db property_id _ _ = err (internal "Invalid Date")

  -- `from ?? new Date().toISOString()`, and `to ?? '2100-01-01'`.
  abbrev from_date : Option Text → ℕ → Option ℕ
  from_date none now = some (now / day_ms * day_ms)
  from_date (some from) now = to_date from

  abbrev until_date : Option Text → Option ℕ
  until_date none = to_date (units "2100-01-01")
  until_date (some to) = to_date to

  -- `GET by-property/:propertyId`.
  unfoldable pub get_calendar :
      Option ℕ
      → Option Text
      → Option Text
      → HttpRequest
      → ℕ
      → BookingsState r.Store
      → Result (List Booking)
  unfolding read_only
  get_calendar id from to req now s =
      read_only (scoped (front_desk ∷ manager ∷ finance ∷ housekeeping ∷ admin ∷ []) property id)
        req now
        (λ user. parse_uuid id >>= λ i. window s.world.db i (from_date from now) (until_date to)) s
