-- ===== src/Bookings/Safety/Reservations.antt =====
-- What the loop over the requested rooms has established for each of them.
use hotelsb2b.Common.{
  ℕ, ◌+◌, ◌≡◌, refl, subst, Bool, List, [], ◌∷◌, ok, >>=-eq-ok, ok-injective, arith, Text,
}
use hotelsb2b.Schema.{Db}
use hotelsb2b.Availability.Pricing.{price_stay}
use hotelsb2b.Availability.Inventory.{reserve_available_room}
use hotelsb2b.Bookings.Create.{CreateBookingRoomDto, RoomInput, reserve_rooms}

-- The sum of the prices of the rooms.
abbrev pub sum_prices : List RoomInput → ℕ
sum_prices [] = 0
sum_prices (i ∷ is) = i.price_minor + sum_prices is

module _ (local_time : ℕ → ℕ) (precedes : Text → Text → Bool) (locked : List ℕ) (db : Db)
    (property_id check_in check_out : ℕ) where
  -- Each requested room, in order, has a reserved room and its price.
  pub data Reserved : List CreateBookingRoomDto → List RoomInput → Type 0 where
    done : Reserved [] []
    more :
        {room : CreateBookingRoomDto} {rooms : List CreateBookingRoomDto} {i : RoomInput}
        {is : List RoomInput}
        → reserve_available_room precedes locked db property_id room.room_type_id check_in check_out
          ≡ ok i.room_id
        → price_stay local_time db room.rate_plan_id check_in check_out ≡ ok i.price_minor
        → i.room_type_id ≡ room.room_type_id
        → i.rate_plan_id ≡ room.rate_plan_id
        → Reserved rooms is
        → Reserved (room ∷ rooms) (i ∷ is)

  -- The loop yields reserved rooms, and adds up their prices.
  pub reserve_rooms_sound :
      (subtotal : ℕ) (rooms : List CreateBookingRoomDto) (out : List RoomInput × ℕ)
      → reserve_rooms local_time precedes locked db property_id check_in check_out subtotal rooms
        ≡ ok out
      → Reserved rooms out.0 × (out.1 ≡ subtotal + sum_prices out.0)
  unfolding reserve_rooms
  reserve_rooms_sound subtotal [] out e =
      subst (λ (o : List RoomInput × ℕ). Reserved [] o.0 × (o.1 ≡ subtotal + sum_prices o.0))
        (ok-injective e) (done, omega arith)
  reserve_rooms_sound subtotal (room ∷ rooms) out e =
      let (id, r, e₁) =
        >>=-eq-ok
          (reserve_available_room precedes locked db property_id room.room_type_id check_in
            check_out)
          _ e in
      let (price, p, e₂) =
        >>=-eq-ok (price_stay local_time db room.rate_plan_id check_in check_out) _ e₁ in
      let (later, l, e₃) =
        >>=-eq-ok
          (reserve_rooms local_time precedes locked db property_id check_in check_out
            (subtotal + price) rooms)
          _ e₂ in
      let (rest, sum) = reserve_rooms_sound (subtotal + price) rooms later l in
      subst
        (λ (o : List RoomInput × ℕ).
          Reserved (room ∷ rooms) o.0 × (o.1 ≡ subtotal + sum_prices o.0))
        (ok-injective e₃) (more r p refl refl rest, omega (arith, sum))
