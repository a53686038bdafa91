-- ===== src/Bookings/Safety/Rows.antt =====
-- The rows that a booking writes for its rooms.
use hotelsb2b.Common.{
  ℕ, suc, ◌+◌, ◌≡◌, ◌≢◌, ◌<◌, ◌≤◌, refl, sym, ap, ◌∙◌, inl, inr, false, some, List, [], ◌∷◌, Memᴰ,
  arith, Text, length,
}
use mathlib.Core.List.Memᴰ
use hotelsb2b.Schema.{BookingRoom}
use hotelsb2b.Bookings.Create.{RoomInput, room_rows}
use hotelsb2b.Bookings.Safety.{same_room}

-- No two inputs name the same room.
abbrev pub DistinctRooms : List RoomInput → Type 0
DistinctRooms [] = Unit {0}
DistinctRooms (i ∷ is) = ((j : RoomInput) → Memᴰ j is → i.room_id ≢ j.room_id) × DistinctRooms is

module _ (booking_id property_id check_in check_out : ℕ) (currency : Text) where
  abbrev rows : ℕ → List RoomInput → List BookingRoom
  rows id inputs = room_rows id booking_id property_id check_in check_out currency inputs

  -- A row comes from an input, and has an id of the range.
  pub record IsRowOf (id : ℕ) (inputs : List RoomInput) (a : BookingRoom) : Type 0 where
    pub input : RoomInput
    pub listed : Memᴰ input inputs
    pub room : a.room_id ≡ some input.room_id
    pub from : a.check_in ≡ check_in
    pub to : a.check_out ≡ check_out
    pub of_booking : a.booking_id ≡ booking_id
    pub price : a.price_minor ≡ input.price_minor
    pub low : id ≤ a.id
    pub high : a.id < id + length inputs

  pub room_rows-IsRowOf :
      (id : ℕ) (inputs : List RoomInput) (a : BookingRoom)
      → Memᴰ a (rows id inputs)
      → IsRowOf id inputs a
  unfolding room_rows
  room_rows-IsRowOf id [] a m = elim m [ ]
  room_rows-IsRowOf id (i ∷ is) a m = elim (Memᴰ.cases_cons m) [
    | inl e ↦ rw e (record {
      input = i;
      listed = Memᴰ.head refl;
      room = refl;
      from = refl;
      to = refl;
      of_booking = refl;
      price = refl;
      low = omega arith;
      high = omega arith;
    })
    | inr k ↦
        let later = room_rows-IsRowOf (suc id) is a k in
        record {
          input = later.input;
          listed = Memᴰ.tail later.listed;
          room = later.room;
          from = later.from;
          to = later.to;
          of_booking = later.of_booking;
          price = later.price;
          low = omega arith;
          high = omega arith;
        }
  ]

  -- Rows with one id are one row.
  pub room_rows-by_id :
      (id : ℕ) (inputs : List RoomInput) (a b : BookingRoom)
      → Memᴰ a (rows id inputs)
      → Memᴰ b (rows id inputs)
      → a.id ≡ b.id
      → a ≡ b
  unfolding room_rows
  room_rows-by_id id [] a b m n e = elim m [ ]
  room_rows-by_id id (i ∷ is) a b m n e = elim (Memᴰ.cases_cons m) [
    | inl ea ↦ elim (Memᴰ.cases_cons n) [
      | inl eb ↦ ea ∙ sym eb
      | inr kb ↦ absurd (
          omega
            (arith, ap (λ (r : BookingRoom). r.id) ea, (room_rows-IsRowOf (suc id) is b kb).low))
    ]
    | inr ka ↦ elim (Memᴰ.cases_cons n) [
      | inl eb ↦ absurd (
          omega
            (arith, ap (λ (r : BookingRoom). r.id) eb, (room_rows-IsRowOf (suc id) is a ka).low))
      | inr kb ↦ room_rows-by_id (suc id) is a b ka kb e
    ]
  ]

  rooms_differ :
      (a b : BookingRoom) (r q : ℕ)
      → a.room_id ≡ some r
      → b.room_id ≡ some q
      → r ≢ q
      → same_room a.room_id b.room_id ≡ false
  rooms_differ a b r q ea eb n = ground arith

  -- Different rows are at different rooms, if the inputs name different rooms.
  pub room_rows-apart :
      (id : ℕ) (inputs : List RoomInput) (a b : BookingRoom)
      → DistinctRooms inputs
      → Memᴰ a (rows id inputs)
      → Memᴰ b (rows id inputs)
      → a.id ≢ b.id
      → same_room a.room_id b.room_id ≡ false
  unfolding room_rows
  room_rows-apart id [] a b d m n ne = elim m [ ]
  room_rows-apart id (i ∷ is) a b (first, later) m n ne = elim (Memᴰ.cases_cons m) [
    | inl ea ↦ elim (Memᴰ.cases_cons n) [
      | inl eb ↦ absurd (ne (ap (λ (r : BookingRoom). r.id) (ea ∙ sym eb)))
      | inr kb ↦
          let rb = room_rows-IsRowOf (suc id) is b kb in
          rooms_differ a b i.room_id rb.input.room_id (ap (λ (r : BookingRoom). r.room_id) ea)
            rb.room (first rb.input rb.listed)
    ]
    | inr ka ↦ elim (Memᴰ.cases_cons n) [
      | inl eb ↦
          let ra = room_rows-IsRowOf (suc id) is a ka in
          rooms_differ a b ra.input.room_id i.room_id ra.room
            (ap (λ (r : BookingRoom). r.room_id) eb) (λ e. first ra.input ra.listed (sym e))
      | inr kb ↦ room_rows-apart (suc id) is a b later ka kb ne
    ]
  ]
