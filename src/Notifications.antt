-- ===== src/Notifications.antt =====
-- apps/api/src/modules/notifications/notifications.service.ts. A message is sent by a log line
-- only, and the devices of the guest are looked up for the log only, so these leave no state.
use hotelsb2b.Common.{
  ℕ, suc, ◌+◌, Bool, true, false, ◌&&◌, Option, none, some, List, [], ◌∷◌, Text, find, select,
  update_where, take, length, ltb, ◌==◌, if◌then◌else◌,
}
use hotelsb2b.Schema.{
  Db, Booking, Notification, NotificationType, NotificationStatus, pending, sent,
}

-- `createForBooking`: a pending row, written in the caller's transaction.
unfoldable pub pending_row : ℕ → Db → Booking → NotificationType → Option Text → Notification
pending_row now db booking type to_address = record {
  id = db.next_id;
  booking_id = some booking.id;
  property_id = some booking.property_id;
  type = type;
  status = pending;
  to_address = to_address;
  sent_at = none;
  created_at = now;
}

unfoldable pub create_for_booking : ℕ → Db → Booking → NotificationType → Option Text → Db
unfolding pending_row
create_for_booking now db booking type to_address = record db {
  notifications = pending_row now db booking type to_address ∷ db.notifications;
  next_id = suc db.next_id;
}

-- `enqueue`: the queue may refuse, which is logged and otherwise ignored.
unfoldable pub enqueue : Bool → List ℕ → ℕ → List ℕ
enqueue accepted queue id = if accepted then id ∷ queue else queue

-- The row of a notification that has been delivered.
unfoldable pub mark_sent : ℕ → ℕ → Db → Db
mark_sent now id db = record db {
  notifications =
      update_where (λ (n : Notification). n.id == id)
        (λ n. record n { status = sent; sent_at = some now }) db.notifications;
}

abbrev pub is_sent : NotificationStatus → Bool
is_sent sent = true
is_sent _ = false

abbrev pub is_pending : NotificationStatus → Bool
is_pending pending = true
is_pending _ = false

unfoldable pub process : ℕ → ℕ → Db → Db
unfolding mark_sent
process now id db = elim (find (λ n. n.id == id) db.notifications) [
  | none ↦ db
  | some n ↦ if is_sent n.status then db else mark_sent now id db
]

-- The rows that `sweepPending` takes: pending, and older than the grace window.
unfoldable pub stragglers : ℕ → ℕ → Db → List Notification
stragglers now older_than_ms db =
    take 100
      (select (λ n. is_pending n.status && ltb (n.created_at + older_than_ms) now) db.notifications)

unfoldable pub process_all : ℕ → List Notification → Db → Db
unfolding process
process_all now [] db = db
process_all now (n ∷ ns) db = process_all now ns (process now n.id db)

unfoldable pub sweep_pending : ℕ → ℕ → Db → ℕ × Db
unfolding stragglers process_all
sweep_pending now older_than_ms db =
    let rows = stragglers now older_than_ms db in (length rows, process_all now rows db)
