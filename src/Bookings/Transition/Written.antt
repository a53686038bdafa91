-- ===== src/Bookings/Transition/Written.antt =====
-- What a transition that goes through leaves in the table of bookings.
use hotelsb2b.Common.{
  ℕ, ◌≡◌, refl, sym, ap, ◌∙◌, subst, Option, none, some, Text, find, ok, ok-injective,
  or_throw-eq-ok, >>=-eq-ok, ◌==◌, find-mem, ==_iff,
}
use hotelsb2b.Schema.{Db, Booking, BookingStatus, cancelled, NotificationType}
use hotelsb2b.Bookings.StateMachine.{assert_transition}
use hotelsb2b.Bookings.StateMachine.Paths.{Step, assert_transition_iff}
use hotelsb2b.Bookings.Transition.{
  with_status, notify, Moved, transition_rows, set_status, guest_email, notification_type,
}
use hotelsb2b.Bookings.Transition.Race.{set_status-find, notify-bookings, with_status-id}

-- The booking has taken a step of the state machine, and is what the table shows under its
-- identifier.
pub record IsWritten (db : Db) (id : ℕ) (to : BookingStatus) (after : Db) (b : Booking)
    : Type 0 where
  pub before : Booking
  pub known : find (λ x. x.id == id) db.bookings ≡ some before
  pub step : Step before.status to
  pub moved : b.status ≡ to
  pub same_id : b.id ≡ id
  pub same_property : b.property_id ≡ before.property_id
  pub stored : find (λ x. x.id == id) after.bookings ≡ some b

with_status-status :
    (to : BookingStatus) (reason : Option Text) (now : ℕ) (b : Booking)
    → (with_status to reason now b).status ≡ to
unfolding with_status
with_status-status cancelled reason now b = refl
with_status-status _ reason now b = refl

with_status-property :
    (to : BookingStatus) (reason : Option Text) (now : ℕ) (b : Booking)
    → (with_status to reason now b).property_id ≡ b.property_id
unfolding with_status
with_status-property cancelled reason now b = refl
with_status-property _ reason now b = refl

notify-booking :
    (type : Option NotificationType) (now : ℕ) (b : Booking) (address : Option Text) (db : Db)
    → (notify type now b address db).booking ≡ b
unfolding notify
notify-booking none now b address db = refl
notify-booking (some type) now b address db = refl

pub transition_rows-IsWritten :
    (db : Db) (id : ℕ) (to : BookingStatus) (reason : Option Text) (now : ℕ) (m : Moved)
    → transition_rows db id to reason now ≡ ok m
    → IsWritten db id to m.db m.booking
unfolding transition_rows
transition_rows-IsWritten db id to reason now m e =
    let (b, found, e₁) = or_throw-eq-ok (find (λ x. x.id == id) db.bookings) _ _ e in
    let (_, allowed, e₂) = >>=-eq-ok (assert_transition b.status to) _ e₁ in
    let rows = set_status to reason now id db in
    let address = guest_email db b.primary_guest_id in
    let row = with_status to reason now b in
    let moved : notify (notification_type to) now row address rows ≡ m = ok-injective e₂ in
    subst (λ (x : Moved). IsWritten db id to x.db x.booking) moved
      (subst (IsWritten db id to (notify (notification_type to) now row address rows).db)
        (sym (notify-booking (notification_type to) now row address rows))
        (record {
          before = b;
          known = found;
          step = (assert_transition_iff b.status to).0 allowed;
          moved = with_status-status to reason now b;
          same_id =
              with_status-id to reason now b
              ∙ (==_iff b.id id).0 (find-mem _ db.bookings b found).1;
          same_property = with_status-property to reason now b;
          stored =
              ap (find (λ x. x.id == id))
                (notify-bookings (notification_type to) now row address rows)
              ∙ set_status-find db id to reason now b found;
        }))
