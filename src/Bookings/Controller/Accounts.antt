-- ===== src/Bookings/Controller/Accounts.antt =====
-- Who may change a booking through its routes, and the account that the log gives of it.
use hotelsb2b.Common.{
  ℕ, ◌≡◌, refl, sym, ap, ◌∙◌, subst, true, Option, none, some, List, [], ◌∷◌, Text, units, Result,
  ok, err, HttpError, ◌==◌, ==_iff, select, take, text_eq,
}
use hotelsb2b.Schema.{StaffRole, BookingStatus, cancelled, front_desk, manager, admin}
use hotelsb2b.Redis.{Redis}
use hotelsb2b.Http.{HttpRequest, context_from_request}
use hotelsb2b.Audit.{audit_row}
use hotelsb2b.Schema.{Booking}
use hotelsb2b.Auth.Access.{Jwt, Secrets}
use hotelsb2b.Auth.Scope.{StaffPropertyAccess, booking}
use hotelsb2b.Auth.Guards.Order.{HasRole, check_roles-HasRole}
use hotelsb2b.Bookings.Transition.{cancel}
use hotelsb2b.Bookings.Controller.{
  room_entity, scoped, audited, serve, BookingsState, Turn, is_of_booking, audit_trail,
  booking_entity, desk_roles, post_transition, post_cancel, patch_assign, handle_transition,
  handle_cancel, handle_assign,
}
use hotelsb2b.Bookings.Controller.Served.{
  IsTransition, served, serve_refused, handle_refused, assign_refused,
}

module _ (jwt : Jwt) (secrets : Secrets) (grants : List StaffPropertyAccess) (r : Redis) where
  -- The booking's trail begins with the row that names the user.
  abbrev pub HeadsTrail :
      (id : Option ℕ) (to : BookingStatus) (action : Text) (req : HttpRequest) (now : ℕ)
      (s s' : BookingsState r.Store) (b : Booking)
      → IsTransition jwt secrets grants r id to action req now s s' b
      → Type 0
  HeadsTrail id to action req now s s' b x =
      audit_trail s'.log x.booking_id
      ≡ audit_row (record { entity_type = units "Booking"; action = action })
          (context_from_request req (some x.user)) (booking_entity b)
        ∷ take 99 (select (is_of_booking x.booking_id) s.log)

  logged-HeadsTrail :
      (id : Option ℕ) (to : BookingStatus) (action : Text) (req : HttpRequest) (now : ℕ)
      (s s' : BookingsState r.Store) (b : Booking)
      (x : IsTransition jwt secrets grants r id to action req now s s' b)
      → HeadsTrail id to action req now s s' b x
  unfolding audit_trail is_of_booking audit_row select text_eq
  logged-HeadsTrail id to action req now s s' b x =
      let here : (b.id == x.booking_id) ≡ true = (==_iff b.id x.booking_id).1 x.written.same_id in
      ap (λ l. audit_trail l x.booking_id) x.logged ∙ rw (here, audit_trail) refl

  -- The route of a cancellation and that of a transition share their handler.
  abbrev moving :
      List StaffRole
      → Text
      → Option ℕ
      → BookingStatus
      → Option Text
      → HttpRequest
      → Turn r.Store
      → BookingsState r.Store
      → Result Booking × BookingsState r.Store
  moving roles action id to reason req t s =
      serve jwt secrets grants r (scoped roles booking id) (audited (units "Booking") action)
        booking_entity req t (λ user w. handle_transition r id to reason t w) s

  post_cancel-eq :
      (id : Option ℕ) (reason : Option Text) (req : HttpRequest) (t : Turn r.Store)
      (s : BookingsState r.Store)
      → post_cancel jwt secrets grants r id reason req t s
        ≡ moving [] (units "cancel") id cancelled reason req t s
  unfolding post_cancel handle_cancel handle_transition cancel
  post_cancel-eq none reason req t s = refl
  post_cancel-eq (some i) reason req t s = refl

  -- A cancellation through its route, with the audit log taking its row, is replied with a booking
  -- only where the request's token names a user who may act on the booking of the path: the guest
  -- whose booking it is, a member of the staff with access to its property, or an administrator. The
  -- booking was pending, confirmed or checked in, is stored as cancelled, and its trail then begins
  -- with a row that names the user.
  pub post_cancel_sound :
      (id : Option ℕ) (reason : Option Text) (req : HttpRequest) (t : Turn r.Store)
      (s : BookingsState r.Store) (b : Booking)
      → t.audit_accepts ≡ true
      → (post_cancel jwt secrets grants r id reason req t s).0 ≡ ok b
      → (x : IsTransition jwt secrets grants r id cancelled
          (units "cancel")
          req
          t.now
          s
          (post_cancel jwt secrets grants r id reason req t s).1
          b)
        × HeadsTrail id cancelled
            (units "cancel")
            req
            t.now
            s
            (post_cancel jwt secrets grants r id reason req t s).1
            b
            x
  post_cancel_sound id reason req t s b kept h =
      let e = post_cancel-eq id reason req t s in
      let (x, _) =
        served jwt secrets grants r [] (units "cancel") id cancelled reason req t s b kept
          (sym (ap (λ out. out.0) e) ∙ h) in
      subst
        (λ (out : Result Booking × BookingsState r.Store).
          (x : IsTransition jwt secrets grants r id cancelled (units "cancel") req t.now s out.1 b)
          × HeadsTrail id cancelled (units "cancel") req t.now s out.1 b x)
        (sym e) (x, logged-HeadsTrail id cancelled (units "cancel") req t.now s _ b x)

  -- A transition through its route, with the audit log taking its row, is replied with a booking only
  -- where the request's token names a member of the staff who has one of the route's roles and may act
  -- on the booking of the path. The booking has taken a step of the state machine to the status of the
  -- body and is stored so, and its trail then begins with a row that names the user.
  pub post_transition_sound :
      (id : Option ℕ) (to : BookingStatus) (reason : Option Text) (req : HttpRequest)
      (t : Turn r.Store) (s : BookingsState r.Store) (b : Booking)
      → t.audit_accepts ≡ true
      → (post_transition jwt secrets grants r id to reason req t s).0 ≡ ok b
      → (x : IsTransition jwt secrets grants r id to
          (units "transition")
          req
          t.now
          s
          (post_transition jwt secrets grants r id to reason req t s).1
          b)
        × HasRole desk_roles x.user
        × HeadsTrail id to
            (units "transition")
            req
            t.now
            s
            (post_transition jwt secrets grants r id to reason req t s).1
            b
            x
  unfolding post_transition
  post_transition_sound id to reason req t s b kept h =
      let (x, role) =
        served jwt secrets grants r desk_roles (units "transition") id to reason req t s b kept h in
      (
        x,
        check_roles-HasRole front_desk (manager ∷ admin ∷ []) x.user role,
        logged-HeadsTrail id to (units "transition") req t.now s _ b x,
      )

  -- A cancellation, a transition or an assignment of a room that is refused, by a guard or by the
  -- service, changes neither the tables, the store and the queue nor the audit log.
  pub refused_unchanged :
      (id : Option ℕ) (to : BookingStatus) (reason : Option Text) (room_id : ℕ) (req : HttpRequest)
      (t : Turn r.Store) (s : BookingsState r.Store) (e : HttpError)
      → ((post_cancel jwt secrets grants r id reason req t s).0 ≡ err e
          → (post_cancel jwt secrets grants r id reason req t s).1 ≡ s)
        × ((post_transition jwt secrets grants r id to reason req t s).0 ≡ err e
            → (post_transition jwt secrets grants r id to reason req t s).1 ≡ s)
        × ((patch_assign jwt secrets grants r id room_id req t s).0 ≡ err e
            → (patch_assign jwt secrets grants r id room_id req t s).1 ≡ s)
  unfolding post_transition patch_assign
  refused_unchanged id to reason room_id req t s e =
      let same = post_cancel-eq id reason req t s in
      (
        λ h.
            ap (λ out. out.1) same
            ∙ serve_refused jwt secrets grants r _ _ booking_entity req t
                (λ user w. handle_transition r id cancelled reason t w) s e
                (λ user f. handle_refused r t s.world id cancelled reason f)
                (sym (ap (λ out. out.0) same) ∙ h),
        serve_refused jwt secrets grants r _ _ booking_entity req t
            (λ user w. handle_transition r id to reason t w) s e
            (λ user f. handle_refused r t s.world id to reason f),
        serve_refused jwt secrets grants r _ _ room_entity req t
            (λ user w. handle_assign r id room_id w) s e
            (λ user f. assign_refused r t s.world id room_id f),
      )
