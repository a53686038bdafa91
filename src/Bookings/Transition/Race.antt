-- ===== src/Bookings/Transition/Race.antt =====
-- Two transitions of one booking, whose statements interleave.
use hotelsb2b.Common.{
  ℕ, ◌≡◌, refl, sym, ap, ◌∙◌, false, Option, none, some, Text, find, find-update_where, inl, inr,
  Option-cases, >>=_assoc, ok, ◌>>=◌, ◌==◌, find-mem, if◌then◌else◌,
}
use hotelsb2b.Schema.{
  Db, Booking, BookingStatus, confirmed, cancelled, checked_in, NotificationType,
}
use hotelsb2b.Notifications.{create_for_booking}
use hotelsb2b.Bookings.StateMachine.{can_transition, assert_transition}
use hotelsb2b.Bookings.Transition.{
  with_status, notification_type, set_status, updated_row, guest_email, notify, check_transition,
  write_transition, transition_rows,
}

pub with_status-id :
    (to : BookingStatus) (reason : Option Text) (now : ℕ) (b : Booking)
    → (with_status to reason now b).id ≡ b.id
unfolding with_status
with_status-id cancelled reason now b = refl
with_status-id _ reason now b = refl

pub notify-bookings :
    (type : Option NotificationType) (now : ℕ) (b : Booking) (address : Option Text) (db : Db)
    → (notify type now b address db).db.bookings ≡ db.bookings
unfolding notify create_for_booking
notify-bookings none now b address db = refl
notify-bookings (some type) now b address db = refl

checks :
    (db : Db) (id : ℕ) (to : BookingStatus) (b : Booking)
    → find (λ b. b.id == id) db.bookings ≡ some b
    → assert_transition b.status to ≡ ok tt
    → check_transition db id to ≡ ok b
unfolding check_transition
checks db id to b found allowed = rw (found, allowed) refl

pub set_status-find :
    (db : Db) (id : ℕ) (to : BookingStatus) (reason : Option Text) (now : ℕ) (b : Booking)
    → find (λ b. b.id == id) db.bookings ≡ some b
    → find (λ b. b.id == id) (set_status to reason now id db).bookings
      ≡ some (with_status to reason now b)
unfolding set_status
set_status-find db id to reason now b found =
    find-update_where (λ b. b.id == id) (λ b. b.id == id) (with_status to reason now) db.bookings b
      (λ y. ap (λ n. n == id) (with_status-id to reason now y)) found
    ∙ ap (λ hit. some (if hit then with_status to reason now b else b))
        (find-mem _ db.bookings b found).1

pub updated_row-set_status :
    (db : Db) (current : Booking) (id : ℕ) (to : BookingStatus) (reason : Option Text) (now : ℕ)
    (b : Booking)
    → find (λ b. b.id == id) db.bookings ≡ some b
    → updated_row (set_status to reason now id db) current id ≡ with_status to reason now b
unfolding updated_row
updated_row-set_status db current id to reason now b found =
    rw (set_status-find db id to reason now b found, updated_row) refl

pub written :
    (db : Db) (current : Booking) (address : Option Text) (id : ℕ) (to : BookingStatus)
    (reason : Option Text) (now : ℕ) (b : Booking)
    → find (λ b. b.id == id) db.bookings ≡ some b
    → find (λ b. b.id == id) (write_transition db current address id to reason now).db.bookings
      ≡ some (with_status to reason now b)
unfolding write_transition
written db current address id to reason now b found =
    ap (find (λ b. b.id == id)) (notify-bookings (notification_type to) now _ _ _)
    ∙ set_status-find db id to reason now b found

-- A transition that is not interrupted is its check and then its transaction.
pub transition_rows-write_transition :
    (db : Db) (id : ℕ) (to : BookingStatus) (reason : Option Text) (now : ℕ)
    → transition_rows db id to reason now ≡ (
        check_transition db id to >>= λ current.
        ok (write_transition db current (guest_email db current.primary_guest_id) id to reason now))
unfolding transition_rows check_transition write_transition
transition_rows-write_transition db id to reason now =
    elim (Option-cases (find (λ b. b.id == id) db.bookings)) [
      | inl e ↦ rw e refl
      | inr (b, e) ↦
          let address = guest_email db b.primary_guest_id in
          let rows = set_status to reason now id db in
          let same =
            ap (λ row. notify (notification_type to) now row address rows)
              (sym (updated_row-set_status db b id to reason now b e)) in
          rw e (
            ap (λ m. assert_transition b.status to >>= λ _. ok m) same
            ∙ sym (>>=_assoc (assert_transition b.status to) _ _))
    ]

-- A cancellation and a check-in of a confirmed booking can both pass their checks before either is
-- written; the check-in is then written over the cancellation, and the booking is checked in,
-- stamped as cancelled, although no cancelled booking can be checked in.
pub transition_race :
    (db : Db) (id : ℕ) (b : Booking) (address address' : Option Text) (reason : Option Text)
    (now later : ℕ)
    → find (λ b. b.id == id) db.bookings ≡ some b
    → b.status ≡ confirmed
    → (check_transition db id cancelled ≡ ok b)
      × (check_transition db id checked_in ≡ ok b)
      × (find
            (λ b. b.id == id)
            (write_transition
              (write_transition db b address id cancelled reason now).db
              b
              address'
              id
              checked_in
              none
              later).db.bookings
          ≡ some
              (record b { status = checked_in; cancelled_at = some now; cancel_reason = reason }))
      × (can_transition cancelled checked_in ≡ false)
unfolding assert_transition with_status can_transition
transition_race db id b address address' reason now later found e = (
  checks db id cancelled b found (rw e refl),
  checks db id checked_in b found (rw e refl),
  written _ b address' id checked_in none later _
      (written db b address id cancelled reason now b found),
  refl,
)
