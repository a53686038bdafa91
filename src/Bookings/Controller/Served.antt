-- ===== src/Bookings/Controller/Served.antt =====
-- How a reply of a route comes about, and a step of a booking that one replies with.
use hotelsb2b.Common.{
  ℕ, ◌≡◌, refl, sym, ap, ◌∙◌, subst, true, Option, none, some, List, ◌∷◌, Text, units, Result, ok,
  err, Result-cases, inl, inr, HttpError, ok-injective,
}
use hotelsb2b.Schema.{StaffRole, Booking, BookingStatus}
use hotelsb2b.Redis.{Redis}
use hotelsb2b.Http.{HttpRequest, context_from_request}
use hotelsb2b.Audit.{AuditMeta, Entity, intercept, audit_row}
use hotelsb2b.Auth.Subject.{AuthUser}
use hotelsb2b.Auth.Access.{Jwt, Secrets}
use hotelsb2b.Auth.Scope.{StaffPropertyAccess, booking}
use hotelsb2b.Auth.Scope.Laws.{IsAllowed}
use hotelsb2b.Auth.Guards.{check_roles, Route, authenticate, admit}
use hotelsb2b.Auth.Guards.Order.{IsAdmitted, admit_sound, can_activate-IsAllowed}
use hotelsb2b.Bookings.Create.Service.{World}
use hotelsb2b.Bookings.Transition.Written.{IsWritten, transition_rows-IsWritten}
use hotelsb2b.Bookings.Transition.{after_transition, transition_rows, transition}
use hotelsb2b.Bookings.Controller.{
  audited, handle_assign, assign_and_read, BookingsState, Turn, scoped, booking_entity, serve,
  handle_transition,
}

module _ (jwt : Jwt) (secrets : Secrets) (grants : List StaffPropertyAccess) (r : Redis) where
  -- A reply without an error comes from the handler, and is recorded.
  pub serve_sound :
      {A : Type 0} (route : Route) (meta : AuditMeta) (entity : A → Entity) (req : HttpRequest)
      (t : Turn r.Store) (handler : Option AuthUser → World r.Store → Result A × World r.Store)
      (s : BookingsState r.Store) (a : A)
      → t.audit_accepts ≡ true
      → (serve jwt secrets grants r route (some meta) entity req t handler s).0 ≡ ok a
      → (user : Option AuthUser) × IsAdmitted jwt secrets s.world.db grants route req t.now user
        × ((handler user s.world).0 ≡ ok a)
        × ((serve jwt secrets grants r route (some meta) entity req t handler s).1 ≡ record {
          world = (handler user s.world).1;
          log = audit_row meta (context_from_request req user) (entity a) ∷ s.log;
        })
  unfolding serve intercept
  serve_sound route meta entity req t handler s a kept h =
      elim (Result-cases (admit jwt secrets s.world.db grants route req t.now)) [
        | inl (e, refused) ↦ absurd (cc (rw (refused, serve) at h))
        | inr (user, passed) ↦ elim (Result-cases (handler user s.world).0) [
          | inl (e, failed) ↦ absurd (cc (rw (passed, serve, failed, intercept) at h))
          | inr (b, done) ↦
              let same : ok b ≡ ok a = rw (passed, serve, done, intercept) at h in
              (
                user,
                admit_sound jwt secrets s.world.db grants route req t.now user passed,
                done ∙ same,
                rw (passed, serve, done, intercept, kept, sym (ok-injective same)) refl,
              )
        ]
      ]

  -- A handler's result is replied with, and recorded.
  pub serve_replies :
      {A : Type 0} (route : Route) (meta : AuditMeta) (entity : A → Entity) (req : HttpRequest)
      (t : Turn r.Store) (handler : Option AuthUser → World r.Store → Result A × World r.Store)
      (s : BookingsState r.Store) (user : Option AuthUser) (a : A) (w : World r.Store)
      → t.audit_accepts ≡ true
      → admit jwt secrets s.world.db grants route req t.now ≡ ok user
      → handler user s.world ≡ (ok a, w)
      → serve jwt secrets grants r route (some meta) entity req t handler s ≡ (
        ok a,
        record {
          world = w;
          log = audit_row meta (context_from_request req user) (entity a) ∷ s.log;
        },
      )
  unfolding serve intercept
  serve_replies route meta entity req t handler s user a w kept passed done =
      rw (passed, serve, done, intercept, kept) refl

  -- A refusal, by a guard or by a handler that changes nothing when it throws, changes nothing.
  pub serve_refused :
      {A : Type 0} (route : Route) (meta : AuditMeta) (entity : A → Entity) (req : HttpRequest)
      (t : Turn r.Store) (handler : Option AuthUser → World r.Store → Result A × World r.Store)
      (s : BookingsState r.Store) (e : HttpError)
      → ((user : Option AuthUser) (f : HttpError)
          → (handler user s.world).0 ≡ err f
          → (handler user s.world).1 ≡ s.world)
      → (serve jwt secrets grants r route (some meta) entity req t handler s).0 ≡ err e
      → (serve jwt secrets grants r route (some meta) entity req t handler s).1 ≡ s
  unfolding serve intercept
  serve_refused route meta entity req t handler s e still h =
      elim (Result-cases (admit jwt secrets s.world.db grants route req t.now)) [
        | inl (f, refused) ↦ rw (refused, serve) refl
        | inr (user, passed) ↦ elim (Result-cases (handler user s.world).0) [
          | inl (f, failed) ↦ rw (passed, serve, failed, intercept, still user f failed) refl
          | inr (b, done) ↦ absurd (cc (rw (passed, serve, done, intercept) at h))
        ]
      ]

module _ (r : Redis) (t : Turn r.Store) (w : World r.Store) where
  pub handled :
      (id : Option ℕ) (to : BookingStatus) (reason : Option Text) (b : Booking)
      → (handle_transition r id to reason t w).0 ≡ ok b
      → (i : ℕ) × (id ≡ some i) × IsWritten w.db i to (handle_transition r id to reason t w).1.db b
  unfolding handle_transition transition after_transition
  handled none to reason b h = absurd cc
  handled (some i) to reason b h = elim (Result-cases (transition_rows w.db i to reason t.now)) [
    | inl (e, refused) ↦ absurd (cc (rw (refused, transition, handle_transition) at h))
    | inr (m, moved) ↦
        let same : m.booking ≡ b = ok-injective (rw (moved, transition, handle_transition) at h) in
        (
          i,
          refl,
          rw (moved, transition, handle_transition)
              (subst (IsWritten w.db i to m.db) same
                (transition_rows-IsWritten w.db i to reason t.now m moved)),
        )
  ]

  pub handle_refused :
      (id : Option ℕ) (to : BookingStatus) (reason : Option Text) (e : HttpError)
      → (handle_transition r id to reason t w).0 ≡ err e
      → (handle_transition r id to reason t w).1 ≡ w
  unfolding handle_transition transition
  handle_refused none to reason e h = refl
  handle_refused (some i) to reason e h =
      elim (Result-cases (transition_rows w.db i to reason t.now)) [
        | inl (f, refused) ↦ rw (refused, transition, handle_transition) refl
        | inr (m, moved) ↦ absurd (cc (rw (moved, transition, handle_transition) at h))
      ]

  pub assign_refused :
      (id : Option ℕ) (room_id : ℕ) (e : HttpError)
      → (handle_assign r id room_id w).0 ≡ err e
      → (handle_assign r id room_id w).1 ≡ w
  unfolding handle_assign
  assign_refused id room_id e h = elim (Result-cases (assign_and_read w.db id room_id)) [
    | inl (f, refused) ↦ rw (refused, handle_assign) refl
    | inr (x, done) ↦ absurd (cc (rw (done, handle_assign) at h))
  ]

module _ (jwt : Jwt) (secrets : Secrets) (grants : List StaffPropertyAccess) (r : Redis) where
  -- A booking that is named by the path has taken a step to a status, for a user who may act on it
  -- and whom the log's new row names.
  pub record IsTransition (id : Option ℕ) (to : BookingStatus) (action : Text) (req : HttpRequest)
      (now : ℕ) (s s' : BookingsState r.Store) (b : Booking) : Type 0 where
    pub user : AuthUser
    pub booking_id : ℕ
    pub named : id ≡ some booking_id
    pub authenticated : authenticate jwt secrets req now ≡ ok (some user)
    pub allowed : IsAllowed s.world.db grants user booking booking_id
    pub written : IsWritten s.world.db booking_id to s'.world.db b
    pub logged :
        s'.log
        ≡ audit_row
            (record { entity_type = units "Booking"; action = action })
            (context_from_request req (some user))
            (booking_entity b)
          ∷ s.log

  pub served :
      (roles : List StaffRole) (action : Text) (id : Option ℕ) (to : BookingStatus)
      (reason : Option Text) (req : HttpRequest) (t : Turn r.Store) (s : BookingsState r.Store)
      (b : Booking)
      → let out =
          serve jwt secrets grants r
            (scoped roles booking id)
            (audited (units "Booking") action)
            booking_entity
            req
            t
            (λ user w. handle_transition r id to reason t w)
            s in
        t.audit_accepts ≡ true
        → out.0 ≡ ok b
        → (x : IsTransition id to action req t.now s out.1 b) × (check_roles roles (some x.user)
            ≡ ok tt)
  served roles action id to reason req t s b kept h =
      let (user, passed, done, state) =
        serve_sound jwt secrets grants r (scoped roles booking id)
          (record { entity_type = units "Booking"; action = action }) booking_entity req t _ s b
          kept h in
      let (u, i, known, named, allowed) =
        can_activate-IsAllowed jwt secrets s.world.db grants booking user id passed.activated in
      let (j, named', written) = handled r t s.world id to reason b done in
      let same : j ≡ i = cc in
      let x : IsTransition id to action req t.now s
          (record {
            world = (handle_transition r id to reason t s.world).1;
            log =
                audit_row (record { entity_type = units "Booking"; action = action })
                  (context_from_request req user) (booking_entity b)
                ∷ s.log;
          })
          b =
        record {
          user = u;
          booking_id = i;
          named = named;
          authenticated = passed.authenticated ∙ ap ok known;
          allowed = allowed;
          written =
              subst
                (λ k. IsWritten s.world.db k to (handle_transition r id to reason t s.world).1.db b)
                same written;
          logged =
              ap
                (λ y.
                  audit_row (record { entity_type = units "Booking"; action = action })
                    (context_from_request req y) (booking_entity b)
                  ∷ s.log)
                known;
        } in
      subst
        (λ (s' : BookingsState r.Store).
          (x : IsTransition id to action req t.now s s' b) × (check_roles roles (some x.user)
            ≡ ok tt))
        (sym state) (x, subst (λ y. check_roles roles y ≡ ok tt) known passed.in_role)
