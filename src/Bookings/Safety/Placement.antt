-- ===== src/Bookings/Safety/Placement.antt =====
-- Requests for different room types are given different rooms.
use hotelsb2b.Common.{
  ℕ, ◌≡◌, ◌≢◌, refl, sym, ◌∙◌, subst, inl, inr, Bool, List, [], ◌∷◌, Memᴰ, ok, Text,
}
use mathlib.Core.List.Memᴰ
use hotelsb2b.Schema.{Db, Room}
use hotelsb2b.Availability.Inventory.{reserve_available_room}
use hotelsb2b.Availability.Inventory.Laws.{IsFree, reserve_sound}
use hotelsb2b.Bookings.Create.{CreateBookingRoomDto, RoomInput}
use hotelsb2b.Bookings.Safety.{IsSafe}
use hotelsb2b.Bookings.Safety.Reservations.{Reserved, done, more}
use hotelsb2b.Bookings.Safety.Rows.{DistinctRooms}

-- No two requested rooms are of the same type.
abbrev pub DistinctTypes : List CreateBookingRoomDto → Type 0
DistinctTypes [] = Unit {0}
DistinctTypes (r ∷ rs) =
    ((q : CreateBookingRoomDto) → Memᴰ q rs → r.room_type_id ≢ q.room_type_id) × DistinctTypes rs

module _ (db : Db) (property_id check_in check_out : ℕ) where
  -- An input is at a room of the table, of the input's type and free for the stay.
  pub record IsPlaced (i : RoomInput) : Type 0 where
    pub room : Room
    pub listed : Memᴰ room db.rooms
    pub same_id : room.id ≡ i.room_id
    pub free : IsFree db property_id i.room_type_id check_in check_out room

  same_room_same_type :
      IsSafe db
      → (i j : RoomInput) → IsPlaced i
      → IsPlaced j
      → i.room_id ≡ j.room_id
      → i.room_type_id ≡ j.room_type_id
  same_room_same_type s i j p q e =
      sym p.free.of_type
      ∙ s.rooms_by_id p.room q.room p.listed q.listed (p.same_id ∙ e ∙ sym q.same_id)
      ∙ q.free.of_type

module _ (local_time : ℕ → ℕ) (precedes : Text → Text → Bool) (locked : List ℕ) (db : Db)
    (property_id check_in check_out : ℕ) where
  abbrev Served : List CreateBookingRoomDto → List RoomInput → Type 0
  Served = Reserved local_time precedes locked db property_id check_in check_out

  -- An input answers a requested room of its type, and is placed.
  pub record IsServed (rooms : List CreateBookingRoomDto) (i : RoomInput) : Type 0 where
    pub request : CreateBookingRoomDto
    pub requested : Memᴰ request rooms
    pub same_type : i.room_type_id ≡ request.room_type_id
    pub placed : IsPlaced db property_id check_in check_out i

  place :
      (room : CreateBookingRoomDto) (i : RoomInput)
      → reserve_available_room precedes locked db property_id room.room_type_id check_in check_out
        ≡ ok i.room_id
      → i.room_type_id ≡ room.room_type_id
      → IsPlaced db property_id check_in check_out i
  place room i e t =
      let (r, m, same, free, _) =
        reserve_sound precedes locked db property_id room.room_type_id check_in check_out i.room_id
          e in
      record {
        room = r;
        listed = m;
        same_id = same;
        free = subst (λ k. IsFree db property_id k check_in check_out r) (sym t) free;
      }

  pub Reserved-Served :
      {rooms : List CreateBookingRoomDto} {is : List RoomInput}
      → Served rooms is
      → (j : RoomInput) → Memᴰ j is
      → IsServed rooms j
  Reserved-Served done j m = elim m [ ]
  Reserved-Served (more {room} {rooms} {i} {is} e p t q rest) j m = elim (Memᴰ.cases_cons m) [
    | inl same ↦ subst (IsServed (room ∷ rooms)) (sym same) (record {
      request = room;
      requested = Memᴰ.head refl;
      same_type = t;
      placed = place room i e t;
    })
    | inr k ↦
        let later = Reserved-Served rest j k in
        record {
          request = later.request;
          requested = Memᴰ.tail later.requested;
          same_type = later.same_type;
          placed = later.placed;
        }
  ]

  pub Reserved-DistinctRooms :
      {rooms : List CreateBookingRoomDto} {is : List RoomInput}
      → IsSafe db
      → Served rooms is
      → DistinctTypes rooms
      → DistinctRooms is
  Reserved-DistinctRooms s done d = tt
  Reserved-DistinctRooms s (more {room} {rooms} {i} {is} e p t q rest) (first, later) = (
    λ j m same.
        let sj = Reserved-Served rest j m in
        first sj.request sj.requested (
          sym t
          ∙ same_room_same_type db property_id check_in check_out s i j (place room i e t) sj.placed
              same
          ∙ sj.same_type),
    Reserved-DistinctRooms s rest later,
  )
