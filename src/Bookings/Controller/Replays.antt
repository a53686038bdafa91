-- ===== src/Bookings/Controller/Replays.antt =====
-- What a repeated request for a booking does.
use hotelsb2b.Common.{
  ℕ, ◌+◌, ◌*◌, ◌<◌, ◌≡◌, refl, sym, ap, ◌∙◌, Bool, true, Option, none, some, List, ◌∷◌, Text,
  text_eq_refl, units, Result, ok,
}
use hotelsb2b.Schema.{Db, Booking}
use hotelsb2b.Redis.{Redis, Laws, idem_res, idem_lock, stored}
use hotelsb2b.Http.{HttpRequest, context_from_request}
use hotelsb2b.Audit.{AuditMeta, audit_row}
use hotelsb2b.Idempotency.{result_ttl_seconds, as_stored, decode_or_reject}
use hotelsb2b.Idempotency.Laws.{locked, execute_runs, finish-stored, answered}
use hotelsb2b.Auth.Subject.{AuthUser}
use hotelsb2b.Auth.Access.{Jwt, Secrets}
use hotelsb2b.Auth.Scope.{StaffPropertyAccess}
use hotelsb2b.Auth.Guards.{admit}
use hotelsb2b.Bookings.Create.{CreateBookingDto}
use hotelsb2b.Bookings.Create.Service.{World}
use hotelsb2b.Bookings.Controller.{BookingsState, Turn, open_route, booking_entity}
use hotelsb2b.Bookings.Controller.Creation.{run_create, handle_create, post_booking}
use hotelsb2b.Bookings.Controller.Served.{serve_sound, serve_replies}

module _ (jwt : Jwt) (secrets : Secrets) (grants : List StaffPropertyAccess) (r : Redis)
    (laws : Laws r) (local_time : ℕ → ℕ) (precedes : Text → Text → Bool) (aborts : Bool)
    (fingerprint : CreateBookingDto → Text) (c : ℕ) (cs : Text) (dto : CreateBookingDto) where
  abbrev handle :
      HttpRequest → Turn r.Store → Option AuthUser → World r.Store → Result Booking × World r.Store
  handle =
      handle_create jwt secrets grants r local_time precedes aborts fingerprint dto (some (c ∷ cs))

  created :
      (req : HttpRequest) (t : Turn r.Store) (user : Option AuthUser) (w : World r.Store)
      (b : Booking) (later : ℕ)
      → as_stored (r.get w.store t.now (idem_res (c ∷ cs))) ≡ none
      → r.get w.store t.now (idem_lock (c ∷ cs)) ≡ none
      → (handle req t user w).0 ≡ ok b
      → later < t.done + 1000 * result_ttl_seconds
      → r.get (handle req t user w).1.store later (idem_res (c ∷ cs))
        ≡ some (stored (fingerprint dto) b)
  unfolding handle_create
  created req t user w b later fresh free h within =
      let run = λ (x : r.Store × (Db × List ℕ)).
        run_create jwt secrets grants r local_time precedes aborts fingerprint dto req t user x in
      let e =
        execute_runs r laws c cs t.others (fingerprint dto) t.now t.done run w.store (w.db, w.queue)
          fresh free in
      ap (λ out. r.get out.1.0 later (idem_res (c ∷ cs))) e
      ∙ finish-stored r laws (c ∷ cs) (fingerprint dto)
          (run (locked r (c ∷ cs) w.store t.now, (w.db, w.queue))) t.done later b
          (sym (ap (λ out. out.0) e) ∙ h) within

  replayed :
      (req : HttpRequest) (t : Turn r.Store) (user : Option AuthUser) (w : World r.Store)
      (b : Booking)
      → r.get w.store t.now (idem_res (c ∷ cs)) ≡ some (stored (fingerprint dto) b)
      → handle req t user w ≡ (ok b, w)
  unfolding handle_create decode_or_reject
  replayed req t user w b kept =
      let run = λ (x : r.Store × (Db × List ℕ)).
        run_create jwt secrets grants r local_time precedes aborts fingerprint dto req t user x in
      ap
        (λ (out : Result Booking × (r.Store × (Db × List ℕ))).
          (out.0, record { db = out.1.1.0; store = out.1.0; queue = out.1.1.1 }))
        (answered r laws c cs t.others (fingerprint dto) (fingerprint dto) t.now t.done run
          (w.store, (w.db, w.queue)) b kept)
      ∙ rw (text_eq_refl (fingerprint dto)) refl

  -- A request for a booking that is repeated with its key, within a day of the end of a first one
  -- that was replied with a booking, is replied with the same booking and changes neither the tables
  -- nor the store nor the queue; but the audit log, if it takes both rows, has another creation of
  -- the booking, by whoever sent the repetition.
  pub post_booking-post_booking :
      (req again : HttpRequest) (t t' : Turn r.Store) (s : BookingsState r.Store) (b : Booking)
      (user : Option AuthUser)
      → as_stored (r.get s.world.store t.now (idem_res (c ∷ cs))) ≡ none
      → r.get s.world.store t.now (idem_lock (c ∷ cs)) ≡ none
      → t.audit_accepts ≡ true
      → t'.audit_accepts ≡ true
      → t'.now < t.done + 1000 * result_ttl_seconds
      → let post =
          post_booking jwt secrets grants r local_time precedes aborts fingerprint dto
            (some (c ∷ cs)) in
        let first = post req t s in
        first.0 ≡ ok b
        → admit jwt secrets first.1.world.db grants open_route again t'.now ≡ ok user
        → post again t' first.1 ≡ (
          ok b,
          record {
            world = first.1.world;
            log =
                audit_row
                  (record { entity_type = units "Booking"; action = units "create" })
                  (context_from_request again user)
                  (booking_entity b)
                ∷ first.1.log;
          },
        )
  unfolding post_booking
  post_booking-post_booking req again t t' s b user fresh free kept kept' within h passed =
      let meta : AuditMeta = record { entity_type = units "Booking"; action = units "create" } in
      let (u, _, done, state) =
        serve_sound jwt secrets grants r open_route meta booking_entity req t
          (λ user w. handle req t user w) s b kept h in
      let first =
        post_booking jwt secrets grants r local_time precedes aborts fingerprint dto (some (c ∷ cs))
          req t s in
      let known =
        ap (λ (x : BookingsState r.Store). r.get x.world.store t'.now (idem_res (c ∷ cs))) state
        ∙ created req t u s.world b t'.now fresh free done within in
      serve_replies jwt secrets grants r open_route meta booking_entity again t'
        (λ user w. handle again t' user w) first.1 user b first.1.world kept' passed
        (replayed again t' user first.1.world b known)
