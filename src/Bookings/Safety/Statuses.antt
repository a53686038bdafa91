-- ===== src/Bookings/Safety/Statuses.antt =====
-- A transition keeps the inventory invariant.
use hotelsb2b.Common.{
  ℕ, ◌≡◌, refl, subst, ◌≤◌, true, Option, none, some, Memᴰ, Text, find, ok, or_throw-eq-ok,
  ok-injective, arith, ◌==◌, >>=-eq-ok,
}
use native.Mathlib.Nat.{le_refl}
use hotelsb2b.Schema.{Db, BookingStatus, Booking, BookingRoom, NotificationType}
use hotelsb2b.Availability.Inventory.{booking_has}
use hotelsb2b.Notifications.{create_for_booking}
use hotelsb2b.Bookings.StateMachine.{assert_transition}
use hotelsb2b.Bookings.StateMachine.Paths.{
  Step, confirm, abandon, arrive, withdraw, miss, leave, depart_early, assert_transition_iff,
}
use hotelsb2b.Bookings.Assign.{is_active}
use hotelsb2b.Bookings.Transition.Race.{with_status-id}
use hotelsb2b.Bookings.Transition.{
  with_status, notification_type, set_status, notify, guest_email, Moved, transition_rows,
}
use hotelsb2b.Bookings.Safety.{IsSafe}
use hotelsb2b.Bookings.Safety.Lookup.{booking_has-update}

-- A step leads from an active status, or it does not lead to one.
Step-is_active : {s t : BookingStatus} → Step s t → is_active s ≡ true
Step-is_active confirm = refl
Step-is_active abandon = refl
Step-is_active arrive = refl
Step-is_active withdraw = refl
Step-is_active miss = refl
Step-is_active leave = refl
Step-is_active depart_early = refl

-- Rows that see no more active bookings stay safe, the rest of the database being as it was.
pub IsSafe-fewer_active :
    (db db' : Db)
    → ((id : ℕ)
        → booking_has is_active db'.bookings id ≡ true
        → booking_has is_active db.bookings id ≡ true)
    → db'.booking_rooms ≡ db.booking_rooms
    → db'.room_blocks ≡ db.room_blocks
    → db'.rooms ≡ db.rooms
    → db.next_id ≤ db'.next_id
    → IsSafe db
    → IsSafe db'
IsSafe-fewer_active db db' fewer rows blocks rooms ids s = record {
  apart = λ a b m n ne.
      ground (arith, s.apart a b (old m) (old n) ne, fewer a.booking_id, fewer b.booking_id);
  unblocked = λ a k m n.
      ground (arith, s.unblocked a k (old m) (subst (Memᴰ k) blocks n), fewer a.booking_id);
  rows_by_id = λ a b m n. s.rows_by_id a b (old m) (old n);
  rooms_by_id = λ x y m n. s.rooms_by_id x y (subst (Memᴰ x) rooms m) (subst (Memᴰ y) rooms n);
  rows_fresh = λ a m. omega (arith, ids, s.rows_fresh a (old m));
}
  where
    old : {a : BookingRoom} → Memᴰ a db'.booking_rooms → Memᴰ a db.booking_rooms
    old {a} m = subst (Memᴰ a) rows m

notify-IsSafe :
    (type : Option NotificationType) (now : ℕ) (b : Booking) (address : Option Text) (db : Db)
    → IsSafe db
    → IsSafe (notify type now b address db).db
unfolding notify create_for_booking
notify-IsSafe none now b address db s = s
notify-IsSafe (some type) now b address db s =
    IsSafe-fewer_active db (notify (some type) now b address db).db (λ id h. h) refl refl refl
      (omega arith) s

transition-fewer_active :
    (db : Db) (id : ℕ) (to : BookingStatus) (reason : Option Text) (now : ℕ) (b : Booking)
    → find (λ x. x.id == id) db.bookings ≡ some b
    → Step b.status to
    → (j : ℕ) → booking_has is_active (set_status to reason now id db).bookings j ≡ true
    → booking_has is_active db.bookings j ≡ true
unfolding set_status
transition-fewer_active db id to reason now b found st j =
    booking_has-update is_active (with_status to reason now) (with_status-id to reason now) id j
      db.bookings b found (λ _. Step-is_active st)

set_status-IsSafe :
    (db : Db) (id : ℕ) (to : BookingStatus) (reason : Option Text) (now : ℕ) (b : Booking)
    → find (λ x. x.id == id) db.bookings ≡ some b
    → Step b.status to
    → IsSafe db
    → IsSafe (set_status to reason now id db)
unfolding set_status
set_status-IsSafe db id to reason now b found st s =
    IsSafe-fewer_active db (set_status to reason now id db)
      (transition-fewer_active db id to reason now b found st) refl refl refl (le_refl db.next_id) s

-- A transition that is allowed, and not interrupted, takes a safe database to a safe one.
pub transition_rows-IsSafe :
    (db : Db) (id : ℕ) (to : BookingStatus) (reason : Option Text) (now : ℕ) (m : Moved)
    → IsSafe db
    → transition_rows db id to reason now ≡ ok m
    → IsSafe m.db
unfolding transition_rows
transition_rows-IsSafe db id to reason now m s e =
    let (b, found, e₁) = or_throw-eq-ok (find (λ x. x.id == id) db.bookings) _ _ e in
    let (_, allowed, e₂) = >>=-eq-ok (assert_transition b.status to) _ e₁ in
    let st = (assert_transition_iff b.status to).0 allowed in
    subst (λ (r : Moved). IsSafe r.db) (ok-injective e₂)
      (notify-IsSafe (notification_type to) now (with_status to reason now b)
        (guest_email db b.primary_guest_id) _ (set_status-IsSafe db id to reason now b found st s))
