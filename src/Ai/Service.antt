-- ===== src/Ai/Service.antt =====
-- apps/api/src/modules/ai/ai.service.ts: the tools of the assistant over the services of the web
-- API. A body that has not the shape of its schema has no value here; one that has is parsed by it.
pub mod Verified
pub mod Quota
pub mod OnFile
use hotelsb2b.Common.{
  ℕ, suc, Bool, Option, none, some, List, Text, Result, ok, err, guard, bad_request,
  too_many_requests, internal, ◌>>=◌, ◌>>◌, ltb, ◌==◌, if◌then◌else◌,
}
use hotelsb2b.Schema.{Db, Booking}
use hotelsb2b.Http.{ActionContext}
use hotelsb2b.Dates.{to_date}
use hotelsb2b.Redis.{Redis, ai_otp_req}
use hotelsb2b.Availability.Search.{AvailabilityQuery, RoomTypeAvailability}
use hotelsb2b.Cache
use hotelsb2b.Idempotency.{execute}
use hotelsb2b.Schemas.{
  AiAvailability, ai_availability_schema, or_default, AiOtpRequest, ai_otp_request_schema,
  AiOtpVerify, ai_otp_verify_schema, AiBookingAction, ai_booking_action_schema,
  create_booking_schema,
}
use hotelsb2b.Bookings.Create.{CreateBookingDto}
use hotelsb2b.Bookings.Create.Service.{World, create}
use hotelsb2b.Bookings.Transition.{cancel}
use hotelsb2b.Bookings.Reading.{
  find_by_id_or_throw, CancellationPreview, cancellation_preview, lookup,
}
use hotelsb2b.Auth.Access.{verify_booking_action_token}
use hotelsb2b.Auth.Service.{Env, Draws, AuthState}
use hotelsb2b.Auth.Service.Sessions.{request_booking_otp, verify_booking_otp_for}

-- `OTP_REQUESTS_PER_BOOKING` and `OTP_REQUEST_WINDOW_SECONDS`.
abbrev pub otp_requests_per_booking : ℕ
otp_requests_per_booking = 5

abbrev pub otp_request_window_seconds : ℕ
otp_request_window_seconds = 3600

-- What the assistant's calls act on: that of the login service, and the queue of notifications.
pub record AiState (S : Type 0) : Type 0 where
  pub auth : AuthState S
  pub queue : List ℕ

abbrev pub world_of : {S : Type 0} → AiState S → World S
world_of s = record { db = s.auth.db; store = s.auth.store; queue = s.queue }

abbrev pub with_world : {S : Type 0} → AiState S → World S → AiState S
with_world s w = record { auth = record s.auth { db = w.db; store = w.store }; queue = w.queue }

-- The world as the store and the rest, which the idempotent execution tells apart.
abbrev pub packed : {S : Type 0} → S × (Db × List ℕ) → World S
packed (store, (db, queue)) = record { db = db; store = store; queue = queue }

abbrev pub unpacked : {S : Type 0} {A : Type 0} → A × World S → A × (S × (Db × List ℕ))
unpacked (a, w) = (a, (w.store, (w.db, w.queue)))

-- `parse`.
abbrev pub parse : Bool → Result (Unit {0})
parse valid = guard valid (bad_request "Invalid body")

-- The query of `checkAvailability`; an invalid date has no ISO text, which the key of the cache
-- wants.
abbrev pub query_of : AiAvailability → Option ℕ → Option ℕ → Result AvailabilityQuery
query_of dto (some check_in) (some check_out) = ok (record {
  property_id = dto.property_id;
  check_in = check_in;
  check_out = check_out;
  adults = or_default 2 dto.adults;
  children = or_default 0 dto.children;
})
query_of dto _ _ = err (internal "Invalid time value")

module _ (r : Redis) (local_time : ℕ → ℕ) where
  unfoldable pub search_parsed :
      Result AvailabilityQuery
      → ℕ
      → AiState r.Store
      → Result (List RoomTypeAvailability) × AiState r.Store
  search_parsed (err e) now s = (err e, s)
  search_parsed (ok q) now s =
      let out = Cache.search r local_time s.auth.db s.auth.store now q in
      (out.0, record s { auth = record s.auth { store = out.1 } })

  unfoldable pub check_availability :
      AiAvailability → ℕ → AiState r.Store → Result (List RoomTypeAvailability) × AiState r.Store
  unfolding search_parsed ai_availability_schema
  check_availability dto now s =
      search_parsed
        (parse (ai_availability_schema dto)
          >> query_of dto (to_date dto.check_in) (to_date dto.check_out))
        now s

  -- `createBooking`; `others` and `done` are those of the idempotent execution.
  unfoldable pub create_booking :
      (Text → Text → Bool)
      → Bool
      → (Text → Bool)
      → (CreateBookingDto → Text)
      → List ℕ
      → (ℕ → Text)
      → Bool
      → (r.Store → r.Store)
      → CreateBookingDto
      → Option Text
      → ActionContext
      → ℕ
      → ℕ
      → AiState r.Store
      → Result Booking × AiState r.Store
  unfolding create_booking_schema
  create_booking precedes aborts is_email fingerprint locked codes accepted others dto key ctx now
        done s =
      elim (parse (create_booking_schema is_email dto)) [
        | err e ↦ (err e, s)
        | ok _ ↦
            let out =
              execute r key (fingerprint dto) others now done
                (λ w. unpacked (
                  create local_time precedes aborts r locked codes accepted now (packed w) dto ctx))
                (s.auth.store, (s.auth.db, s.queue)) in
            (out.0, with_world s (record { db = out.1.1.0; store = out.1.0; queue = out.1.1.1 }))
      ]

module _ (r : Redis) where
  -- The counter of requests for a booking, and the store with it.
  unfoldable pub count_request : ℕ → ℕ → r.Store → ℕ × r.Store
  count_request booking_id now s =
      let (count, counted) = r.incr s now (ai_otp_req booking_id) in
      (
        count,
        if count == 1
            then r.expire counted now (ai_otp_req booking_id) otp_request_window_seconds
            else counted,
      )

module _ (env : Env) where
  -- The booking that the token of a call names.
  unfoldable pub booking_of_call : AiBookingAction → ℕ → Result ℕ
  unfolding ai_booking_action_schema
  booking_of_call body now =
      parse (ai_booking_action_schema body)
      >> verify_booking_action_token env.jwt env.secrets body.verification_token now

  unfoldable pub get_booking :
      {S : Type 0} → AiBookingAction → ℕ → AiState S → Result (Booking × CancellationPreview)
  unfolding booking_of_call
  get_booking body now s = do
    booking_id ← booking_of_call body now
    booking ← find_by_id_or_throw s.auth.db booking_id
    preview ← cancellation_preview s.auth.db now booking_id
    ok (booking, preview)

module _ (r : Redis) (env : Env) where
  -- `requestOtp`, once the booking is found.
  unfoldable pub request_otp_for :
      Draws → Booking → ℕ → AiState r.Store → Result (ℕ × Option Text) × AiState r.Store
  unfolding count_request
  request_otp_for draws booking now s =
      let (count, store) = count_request r booking.id now s.auth.store in
      let auth : AuthState r.Store = record s.auth { store = store } in
      if ltb otp_requests_per_booking count
      then (
        err (too_many_requests "Too many verification attempts for this booking"),
        record s { auth = auth },
      )
      else let out = request_booking_otp r env draws booking.id now auth in
        ((out.0 >>= λ dev_code. ok (booking.id, dev_code)), record s { auth = out.1 })

  unfoldable pub request_otp :
      Draws → AiOtpRequest → ℕ → AiState r.Store → Result (ℕ × Option Text) × AiState r.Store
  unfolding request_otp_for ai_otp_request_schema
  request_otp draws body now s =
      elim (parse (ai_otp_request_schema body)
        >> lookup s.auth.db body.confirmation_code body.last_name) [
          | err e ↦ (err e, s)
          | ok booking ↦ request_otp_for draws booking now s
        ]

  unfoldable pub verify_otp : AiOtpVerify → ℕ → AiState r.Store → Result Text × AiState r.Store
  unfolding ai_otp_verify_schema
  verify_otp body now s = elim (parse (ai_otp_verify_schema body)) [
    | err e ↦ (err e, s)
    | ok _ ↦
        let out = verify_booking_otp_for r env body.booking_id body.code now s.auth in
        (out.0, record s { auth = out.1 })
  ]

  unfoldable pub cancel_booking :
      Bool → AiBookingAction → ℕ → AiState r.Store → Result Booking × AiState r.Store
  unfolding booking_of_call
  cancel_booking accepted body now s = elim (booking_of_call env body now) [
    | err e ↦ (err e, s)
    | ok booking_id ↦
        let out = cancel r accepted now (world_of s) booking_id body.reason in
        (out.0, with_world s out.1)
  ]
