-- ===== src/Bookings/Transition.antt =====
-- `transition` and `cancel` of bookings.service.ts.
pub mod Race
pub mod Written
use hotelsb2b.Common.{
  ℕ, Bool, true, false, Option, none, some, Text, find, update_where, Result, ok, err, or_throw,
  not_found, ◌>>=◌, ◌>>◌, ◌==◌, if◌then◌else◌,
}
use hotelsb2b.Schema.{
  Db, Booking, BookingStatus, confirmed, cancelled, no_show, NotificationType, booking_confirmed,
  booking_cancelled,
}
use hotelsb2b.Redis.{Redis}
use hotelsb2b.Cache.{bump_property}
use hotelsb2b.Notifications.{create_for_booking, enqueue}
use hotelsb2b.Bookings.StateMachine.{assert_transition}
use hotelsb2b.Bookings.Create.Service.{World}

-- The data of the update: a cancellation is stamped.
unfoldable pub with_status : BookingStatus → Option Text → ℕ → Booking → Booking
with_status cancelled reason now b = record b {
  status = cancelled;
  cancelled_at = some now;
  cancel_reason = reason;
}
with_status to reason now b = record b { status = to }

-- The type of the notification, if the transition has one.
unfoldable pub notification_type : BookingStatus → Option NotificationType
notification_type confirmed = some booking_confirmed
notification_type cancelled = some booking_cancelled
notification_type _ = none

-- Cancel and no-show free inventory.
abbrev pub frees_inventory : BookingStatus → Bool
frees_inventory cancelled = true
frees_inventory no_show = true
frees_inventory _ = false

unfoldable pub set_status : BookingStatus → Option Text → ℕ → ℕ → Db → Db
unfolding with_status
set_status to reason now id db = record db {
  bookings = update_where (λ b. b.id == id) (with_status to reason now) db.bookings;
}

-- `current.primaryGuest.email`; a booking has its guest by a foreign key.
unfoldable pub guest_email : Db → ℕ → Option Text
guest_email db id = elim (find (λ g. g.id == id) db.guests) [ none ↦ none | some g ↦ g.email ]

-- What a transition yields: the row, the notification if any, the database.
pub record Moved : Type 0 where
  pub booking : Booking
  pub notification_id : Option ℕ
  pub db : Db

unfoldable pub notify : Option NotificationType → ℕ → Booking → Option Text → Db → Moved
notify none now b address db = record { booking = b; notification_id = none; db = db }
notify (some type) now b address db = record {
  booking = b;
  notification_id = some db.next_id;
  db = create_for_booking now db b type address;
}

-- The first statement of `transition`, which is outside the transaction, and its check.
unfoldable pub check_transition : Db → ℕ → BookingStatus → Result Booking
check_transition db id to = do
  current ← or_throw (find (λ b. b.id == id) db.bookings) (not_found "Booking not found")
  assert_transition current.status to
  ok current

-- The row that `update` gives back. A booking is never deleted, so that the missing row is no case
-- of the source.
unfoldable pub updated_row : Db → Booking → ℕ → Booking
updated_row db current id = elim (find (λ b. b.id == id) db.bookings) [
  | none ↦ current
  | some b ↦ b
]

-- The transaction, which acts on the database as it is by then; `address` is the e-mail address that
-- was read with `current`.
unfoldable pub write_transition :
    Db → Booking → Option Text → ℕ → BookingStatus → Option Text → ℕ → Moved
unfolding notification_type set_status updated_row notify
write_transition db current address id to reason now =
    let db' = set_status to reason now id db in
    notify (notification_type to) now (updated_row db' current id) address db'

-- Both at once, up to the commit.
unfoldable pub transition_rows : Db → ℕ → BookingStatus → Option Text → ℕ → Result Moved
transition_rows db id to reason now = do
  current ← or_throw (find (λ b. b.id == id) db.bookings) (not_found "Booking not found")
  assert_transition current.status to
  ok (
      notify (notification_type to) now (with_status to reason now current)
        (guest_email db current.primary_guest_id) (set_status to reason now id db))

module _ (r : Redis) where
  unfoldable pub after_transition : Bool → ℕ → World r.Store → BookingStatus → Moved → World r.Store
  after_transition accepted now w to m = record {
    db = m.db;
    store =
        if frees_inventory to then bump_property r w.store now m.booking.property_id else w.store;
    queue = elim m.notification_id [ none ↦ w.queue | some id ↦ enqueue accepted w.queue id ];
  }

  unfoldable pub transition :
      Bool → ℕ → World r.Store → ℕ → BookingStatus → Option Text → Result Booking × World r.Store
  transition accepted now w id to reason = elim (transition_rows w.db id to reason now) [
    | ok m ↦ (ok m.booking, after_transition accepted now w to m)
    | err e ↦ (err e, w)
  ]

  unfoldable pub cancel :
      Bool → ℕ → World r.Store → ℕ → Option Text → Result Booking × World r.Store
  unfolding transition
  cancel accepted now w id reason = transition accepted now w id cancelled reason
