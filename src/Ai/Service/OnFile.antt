-- ===== src/Ai/Service/OnFile.antt =====
-- Where the code for a change of a booking is sent.
use hotelsb2b.Common.{
  ◌<◌, ◌∙◌, ℕ, ◌≤◌, ◌≡◌, refl, sym, ap, subst, Bool, true, Option, some, Memᴰ, Text, find, find-mem,
  ok, ok-injective, >>=-eq-ok, arith, ltb, ◌==◌, Bool-cases, Option-cases, Result-cases, inl, inr,
}
use hotelsb2b.Schema.{Db, Guest, Booking}
use hotelsb2b.Redis.{Redis, Laws}
use hotelsb2b.Schemas.{AiOtpRequest, ai_otp_request_schema}
use hotelsb2b.Bookings.Reading.{lookup}
use hotelsb2b.Auth.Otp.{OtpDb, booking_action, contact_of, new_code, issue_booking_otp}
use hotelsb2b.Auth.Service.{Env, Draws, AuthState}
use hotelsb2b.Auth.Service.Sessions.{request_booking_otp}
use hotelsb2b.Ai.Service.Quota.{Holds, Counted, count_request-Counted}
use hotelsb2b.Ai.Service.{
  AiState, otp_requests_per_booking, count_request, request_otp_for, request_otp,
}

-- The code is one for the booking, and goes to the contact of the guest of the booking.
pub record IsSentOnFile (code_hash : Text) (now booking_id : ℕ) (rows : Db) (before codes : OtpDb)
    : Type 0 where
  pub booking : Booking
  pub booking_listed : Memᴰ booking rows.bookings
  pub named : (booking.id == booking_id) ≡ true
  pub guest : Guest
  pub guest_listed : Memᴰ guest rows.guests
  pub owner : (guest.id == booking.primary_guest_id) ≡ true
  pub destination : Text
  pub on_file : contact_of guest ≡ some destination
  pub issued :
      codes
      ≡ new_code now booking_action code_hash
          (some booking.primary_guest_id)
          (some booking_id)
          destination
          before

issue_booking_otp_sound :
    (sha256 : Text → Text) (production : Bool) (code : Text) (now : ℕ) (rows : Db) (booking_id : ℕ)
    (db : OtpDb) (dev_code : Option Text)
    → (issue_booking_otp sha256 production code now rows booking_id db).0 ≡ ok dev_code
    → IsSentOnFile
        (sha256 code)
        now
        booking_id
        rows
        db
        (issue_booking_otp sha256 production code now rows booking_id db).1
unfolding issue_booking_otp
issue_booking_otp_sound sha256 production code now rows booking_id db dev_code h =
    elim (Option-cases (find (λ b. b.id == booking_id) rows.bookings)) [
      | inl e ↦ absurd (cc (rw (e, issue_booking_otp) at h))
      | inr (b, found) ↦ elim (Option-cases (find (λ g. g.id == b.primary_guest_id) rows.guests)) [
        | inl e ↦ absurd (cc (rw (found, issue_booking_otp, e) at h))
        | inr (g, owner) ↦ elim (Option-cases (contact_of g)) [
          | inl e ↦ absurd (cc (rw (found, issue_booking_otp, owner, e) at h))
          | inr (destination, on_file) ↦
              let (bm, named) = find-mem _ rows.bookings b found in
              let (gm, own) = find-mem _ rows.guests g owner in
              record {
                booking = b;
                booking_listed = bm;
                named = named;
                guest = g;
                guest_listed = gm;
                owner = own;
                destination = destination;
                on_file = on_file;
                issued = rw (found, issue_booking_otp, owner, on_file) refl;
              }
        ]
      ]
    ]

module _ (r : Redis) (env : Env) where
  request_otp_for_sound :
      (draws : Draws) (b : Booking) (now : ℕ) (s : AiState r.Store) (id : ℕ)
      (dev_code : Option Text)
      → (request_otp_for r env draws b now s).0 ≡ ok (id, dev_code)
      → (b.id ≡ id)
        × ((count_request r b.id now s.auth.store).0 ≤ otp_requests_per_booking)
        × IsSentOnFile
            (env.sha256 draws.code)
            now
            b.id
            s.auth.db
            s.auth.codes
            (request_otp_for r env draws b now s).1.auth.codes
  unfolding request_otp_for request_booking_otp
  request_otp_for_sound draws b now s id dev_code h =
      let auth : AuthState r.Store = record s.auth {
        store = (count_request r b.id now s.auth.store).1;
      } in
      elim (Bool-cases (ltb otp_requests_per_booking (count_request r b.id now s.auth.store).0)) [
        | inl many ↦ absurd (cc (rw (many, request_otp_for) at h))
        | inr few ↦
            let (dev, issued, e) =
              >>=-eq-ok
                (issue_booking_otp env.sha256 env.production draws.code now s.auth.db b.id
                  s.auth.codes).0
                (λ dev_code. ok (b.id, dev_code)) (rw (few, request_otp_for) at h) in
            let sent =
              issue_booking_otp_sound env.sha256 env.production draws.code now s.auth.db b.id
                s.auth.codes dev issued in
            (ap (λ x. x.0) (ok-injective e), ground arith, rw (few, request_otp_for) sent)
      ]

  request_otp-sent :
      (draws : Draws) (body : AiOtpRequest) (now : ℕ) (s : AiState r.Store) (id : ℕ)
      (dev_code : Option Text)
      → (request_otp r env draws body now s).0 ≡ ok (id, dev_code)
      → (b : Booking) × (lookup s.auth.db body.confirmation_code body.last_name ≡ ok b)
        × (b.id ≡ id)
        × ((count_request r id now s.auth.store).0 ≤ otp_requests_per_booking)
        × IsSentOnFile
            (env.sha256 draws.code)
            now
            id
            s.auth.db
            s.auth.codes
            (request_otp r env draws body now s).1.auth.codes
  unfolding request_otp
  request_otp-sent draws body now s id dev_code h = elim (Bool-cases (ai_otp_request_schema body)) [
    | inr bad ↦ absurd (cc (rw (bad, request_otp) at h))
    | inl good ↦ elim (Result-cases (lookup s.auth.db body.confirmation_code body.last_name)) [
      | inl (e, missing) ↦ absurd (cc (rw (good, missing, request_otp) at h))
      | inr (b, found) ↦
          let (same, few, sent) =
            request_otp_for_sound draws b now s id dev_code (rw (good, found, request_otp) at h) in
          let entry : request_otp r env draws body now s ≡ request_otp_for r env draws b now s =
            rw (good, found, request_otp) refl in
          let here =
            subst
              (λ i.
                IsSentOnFile (env.sha256 draws.code) now i s.auth.db s.auth.codes
                  (request_otp_for r env draws b now s).1.auth.codes)
              same sent in
          (
            b,
            found,
            same,
            subst (λ i. (count_request r i now s.auth.store).0 ≤ otp_requests_per_booking) same few,
            subst (IsSentOnFile (env.sha256 draws.code) now id s.auth.db s.auth.codes)
                (ap (λ x. x.1.auth.codes) (sym entry)) here,
          )
    ]
  ]

  request_otp_for-store :
      (draws : Draws) (b : Booking) (now : ℕ) (s : AiState r.Store)
      → (request_otp_for r env draws b now s).1.auth.store
        ≡ (count_request r b.id now s.auth.store).1
  unfolding request_otp_for request_booking_otp
  request_otp_for-store draws b now s =
      elim (Bool-cases (ltb otp_requests_per_booking (count_request r b.id now s.auth.store).0)) [
        | inl many ↦ rw (many, request_otp_for) refl
        | inr few ↦ rw (few, request_otp_for) refl
      ]

  request_otp-store :
      (draws : Draws) (body : AiOtpRequest) (now : ℕ) (s : AiState r.Store) (id : ℕ)
      (dev_code : Option Text)
      → (request_otp r env draws body now s).0 ≡ ok (id, dev_code)
      → (request_otp r env draws body now s).1.auth.store ≡ (count_request r id now s.auth.store).1
  unfolding request_otp
  request_otp-store draws body now s id dev_code h =
      let (b, found, same, _, _) = request_otp-sent draws body now s id dev_code h in
      elim (Bool-cases (ai_otp_request_schema body)) [
        | inr bad ↦ absurd (cc (rw (bad, request_otp) at h))
        | inl good ↦
            rw (good, found, request_otp)
              (request_otp_for-store draws b now s
                ∙ ap (λ i. (count_request r i now s.auth.store).1) same)
      ]

  -- A code for a change by the assistant is issued only for a booking whose confirmation code and
  -- last name were given, and only where fewer than five requests have been counted for the booking;
  -- it goes to the contact that the guest of the booking has on file. The request is counted: a first
  -- count lives for an hour, and a later request does not make it live longer.
  pub request_otp_sound :
      (laws : Laws r) (draws : Draws) (body : AiOtpRequest) (now : ℕ) (s : AiState r.Store)
      (id n : ℕ) (dev_code : Option Text)
      → Holds r s.auth.store now id n
      → (request_otp r env draws body now s).0 ≡ ok (id, dev_code)
      → (b : Booking) × (lookup s.auth.db body.confirmation_code body.last_name ≡ ok b)
        × (b.id ≡ id)
        × (n < otp_requests_per_booking)
        × Counted r s.auth.store (request_otp r env draws body now s).1.auth.store now id n
        × IsSentOnFile
            (env.sha256 draws.code)
            now
            id
            s.auth.db
            s.auth.codes
            (request_otp r env draws body now s).1.auth.codes
  request_otp_sound laws draws body now s id n dev_code held h =
      let (b, found, same, few, sent) = request_otp-sent draws body now s id dev_code h in
      let (next, counted) = count_request-Counted r laws s.auth.store now id n held in
      (
        b,
        found,
        same,
        omega (arith, few, next),
        subst (λ x. Counted r s.auth.store x now id n)
            (sym (request_otp-store draws body now s id dev_code h)) counted,
        sent,
      )
