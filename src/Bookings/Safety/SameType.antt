-- ===== src/Bookings/Safety/SameType.antt =====
-- Two rooms of one type in one request are given one physical room.
use hotelsb2b.Common.{
  ℕ, suc, ◌≡◌, ◌<◌, refl, sym, ap, ◌∙◌, subst, Bool, true, false, Option, some, List, ◌∷◌, Memᴰ, ok,
  ok-injective, arith, Text,
}
use mathlib.Core.Bool.{false≢true}
use hotelsb2b.Schema.{Db, Booking, BookingRoom, booking_received, pending_payment}
use hotelsb2b.Dates.{less_than_one_night}
use hotelsb2b.Availability.Inventory.{booking_has, reserve_available_room}
use hotelsb2b.Notifications.{create_for_booking}
use hotelsb2b.Bookings.Assign.{is_active}
use hotelsb2b.Http.{ActionContext}
use hotelsb2b.Bookings.Create.{CreateBookingDto, CreateBookingRoomDto, RoomInput, room_row}
use hotelsb2b.Bookings.Create.Service.{booking_row, write_booking, Created, create_rows}
use hotelsb2b.Bookings.Safety.{clash, IsSafe}
use hotelsb2b.Bookings.Safety.Lookup.{booking_has-insert}
use hotelsb2b.Bookings.Safety.Reservations.{Reserved, more}
use hotelsb2b.Bookings.Safety.Created.{guest, db₁, create_rows-IsCreation}

module _ (local_time : ℕ → ℕ) (precedes : Text → Text → Bool) (locked : List ℕ) (db : Db)
    (property_id check_in check_out : ℕ) where
  -- The first two of the reserved rooms.
  record Twins (inputs : List RoomInput) : Type 0 where
    first : RoomInput
    second : RoomInput
    rest : List RoomInput
    are : inputs ≡ first ∷ second ∷ rest
    one_room : first.room_id ≡ second.room_id

  twins :
      {x y : CreateBookingRoomDto} {rooms : List CreateBookingRoomDto} {inputs : List RoomInput}
      → Reserved local_time precedes locked db property_id check_in check_out (x ∷ y ∷ rooms) inputs
      → x.room_type_id ≡ y.room_type_id
      → Twins inputs
  twins (more {i} e _ _ _ (more {i = j} {is} f _ _ _ _)) same = record {
    first = i;
    second = j;
    rest = is;
    are = refl;
    one_room = ok-injective (
        sym e
        ∙ ap (λ t. reserve_available_room precedes locked db property_id t check_in check_out) same
        ∙ f);
  }

active_new :
    (b : Booking) (bs : List Booking)
    → b.status ≡ pending_payment
    → booking_has is_active (b ∷ bs) b.id ≡ true
active_new b bs e = ground (arith, booking_has-insert is_active b bs b.id)

-- Two rows of one active booking at one room clash.
rows_clash :
    (bs : List Booking) (a c : BookingRoom) (r : ℕ)
    → booking_has is_active bs a.booking_id ≡ true
    → c.booking_id ≡ a.booking_id
    → a.room_id ≡ some r
    → c.room_id ≡ some r
    → a.check_in < a.check_out
    → c.check_in ≡ a.check_in
    → c.check_out ≡ a.check_out
    → clash bs a c ≡ true
rows_clash bs a c r ha hc ea ec h ei eo = ground (arith, ap (booking_has is_active bs) hc)

unsafe :
    (now : ℕ) (d : Db) (b : Booking) (dto : CreateBookingDto) (i j : RoomInput)
    (is : List RoomInput) (address : Option Text)
    → b.status ≡ pending_payment
    → b.check_in < b.check_out
    → i.room_id ≡ j.room_id
    → ¬ IsSafe
        (create_for_booking now (write_booking d b dto (i ∷ j ∷ is)) b booking_received address)
unfolding create_for_booking write_booking
unsafe now d b dto i j is address e h same s =
    let a : BookingRoom =
      room_row (suc d.next_id) b.id b.property_id b.check_in b.check_out b.currency i in
    let c : BookingRoom =
      room_row (suc (suc d.next_id)) b.id b.property_id b.check_in b.check_out b.currency j in
    let off =
      s.apart a c (Memᴰ.head refl) (Memᴰ.tail (Memᴰ.head refl)) (λ n. absurd (omega (arith, n))) in
    let on =
      rows_clash (b ∷ d.bookings) a c i.room_id (active_new b d.bookings e) refl refl
        (ap some (sym same)) h refl refl in
    absurd (false≢true (sym off ∙ on))

some_night : (i o : ℕ) → less_than_one_night (some i) (some o) ≡ false → i < o
unfolding less_than_one_night
some_night i o h = ground arith

-- A request whose first two rooms are of one type, if it succeeds, leaves a database that is not
-- safe: it books one room twice for the same nights.
pub same_type_unsafe :
    (local_time : ℕ → ℕ) (precedes : Text → Text → Bool) (aborts : Bool) (locked : List ℕ)
    (codes : ℕ → Text) (now : ℕ) (db : Db) (dto : CreateBookingDto) (ctx : ActionContext)
    (c : Created) (x y : CreateBookingRoomDto) (rooms : List CreateBookingRoomDto)
    → dto.rooms ≡ x ∷ y ∷ rooms
    → x.room_type_id ≡ y.room_type_id
    → create_rows local_time precedes aborts locked codes now db dto ctx ≡ ok c
    → ¬ IsSafe c.db
unfolding booking_row
same_type_unsafe local_time precedes aborts locked codes now db dto ctx c x y rooms er et e s =
    let r = create_rows-IsCreation local_time precedes aborts locked codes now db dto ctx c e in
    let run = r.run in
    let first_db = db₁ local_time precedes aborts locked codes now db dto ctx in
    let tw =
      twins local_time precedes locked first_db dto.property_id r.check_in r.check_out
        (subst
          (λ l.
            Reserved local_time precedes locked first_db dto.property_id r.check_in r.check_out l
              run.inputs)
          er run.reserved)
        et in
    let address = (guest local_time precedes aborts locked codes now db dto ctx).email in
    let status = ap (λ (b : Booking). b.status) run.booking in
    let night : c.booking.check_in < c.booking.check_out =
      rw run.booking (some_night r.check_in r.check_out r.some_night) in
    let safe = subst IsSafe run.written s in
    unsafe now first_db c.booking dto tw.first tw.second tw.rest address status night tw.one_room (
      subst
        (λ l. IsSafe (
          create_for_booking now (write_booking first_db c.booking dto l) c.booking booking_received
            address))
        tw.are safe)
