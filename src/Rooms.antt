-- ===== src/Rooms.antt =====
-- apps/api/src/modules/rooms/rooms.service.ts
use hotelsb2b.Common.{
  ℕ, suc, Bool, true, not, ◌&&◌, Option, none, some, List, ◌∷◌, Text, any, find, select,
  update_where, Result, ok, err, or_throw, guard, bad_request, not_found, conflict, internal, ◌>>=◌,
  ◌>>◌, ltb, ◌==◌, text_eq,
}
use hotelsb2b.Schema.{Db, Room, RoomBlock, RoomStatus, clean}
use hotelsb2b.Redis.{Redis}
use hotelsb2b.Cache.{bump_property}
use hotelsb2b.Dates.{midnight}
use hotelsb2b.Bookings.Assign.{active_overlap}

-- room.dto.ts, without the floor and the housekeeping note, which no code reads.
pub record CreateRoomDto : Type 0 where
  pub property_id : ℕ
  pub room_type_id : ℕ
  pub number : Text

pub record UpdateRoomDto : Type 0 where
  pub status : Option RoomStatus
  pub active : Option Bool

pub record BlockRoomDto : Type 0 where
  pub start_date : Text
  pub end_date : Text
  pub reason : Text
  pub user_id : Option ℕ

-- `listByProperty`, up to the order.
unfoldable pub list_by_property : Db → ℕ → List Room
list_by_property db property_id = select (λ r. r.property_id == property_id) db.rooms

-- `listBlocks`, up to the order.
unfoldable pub list_blocks : Db → ℕ → List RoomBlock
list_blocks db property_id = select (λ b. b.property_id == property_id) db.room_blocks

-- `create`: the columns `status` and `active` take their defaults. A number that the property has
-- already is refused by the unique index. The property whose cache version goes up comes with it.
unfoldable pub create : Db → CreateRoomDto → Result (Db × ℕ)
create db dto = do
  guard
      (not (any (λ r. (r.property_id == dto.property_id) && text_eq r.number dto.number) db.rooms))
      (internal "Unique constraint failed")
  ok (
    record db {
      rooms =
          record {
            id = db.next_id;
            property_id = dto.property_id;
            room_type_id = dto.room_type_id;
            number = dto.number;
            status = clean;
            active = true;
          }
          ∷ db.rooms;
      next_id = suc db.next_id;
    },
    dto.property_id,
  )

-- A field that is left out of the update keeps its value.
abbrev given {ℓ} : {A : Type ℓ} → Option A → A → A
given none old = old
given (some new) old = new

unfoldable pub update : Db → ℕ → UpdateRoomDto → Result (Db × ℕ)
update db id dto = do
  room ← or_throw (find (λ r. r.id == id) db.rooms) (not_found "Room not found")
  ok (
    record db {
      rooms =
          update_where (λ (r : Room). r.id == id)
            (λ r. record r {
              status = given dto.status r.status;
              active = given dto.active r.active;
            })
            db.rooms;
    },
    room.property_id,
  )

-- `end <= start` is false at an invalid date; the query with such a date is then refused.
unfoldable pub block_between : Db → Room → BlockRoomDto → Option ℕ → Option ℕ → Result (Db × ℕ)
block_between db room dto (some start) (some end) = do
  guard (ltb start end) (bad_request "endDate must be after startDate")
  guard (not (any (active_overlap db.bookings room.id start end) db.booking_rooms))
      (conflict "An active booking overlaps this block window")
  ok (
    record db {
      room_blocks =
          record {
            id = db.next_id;
            property_id = room.property_id;
            room_id = room.id;
            start_date = start;
            end_date = end;
            reason = dto.reason;
            created_by_user_id = dto.user_id;
          }
          ∷ db.room_blocks;
      next_id = suc db.next_id;
    },
    room.property_id,
  )
block_between db room dto _ _ = err (internal "Invalid Date")

unfoldable pub block : Db → ℕ → BlockRoomDto → Result (Db × ℕ)
unfolding block_between
block db room_id dto = do
  room ← or_throw (find (λ r. r.id == room_id) db.rooms) (not_found "Room not found")
  block_between db room dto (midnight dto.start_date) (midnight dto.end_date)

-- The handlers as a whole: what they change in the store is the version of the property that comes
-- with the result.
unfoldable pub with_bump :
    (r : Redis) → ℕ → Db × r.Store → Result (Db × ℕ) → Result (Unit {0}) × (Db × r.Store)
with_bump r now (db, s) (ok out) = (ok tt, (out.0, bump_property r s now out.1))
with_bump r now (db, s) (err e) = (err e, (db, s))

module _ (r : Redis) where
  unfoldable pub create_room : ℕ → Db × r.Store → CreateRoomDto → Result (Unit {0}) × (Db × r.Store)
  unfolding create with_bump
  create_room now w dto = with_bump r now w (create w.0 dto)

  unfoldable pub update_room :
      ℕ → Db × r.Store → ℕ → UpdateRoomDto → Result (Unit {0}) × (Db × r.Store)
  unfolding update with_bump
  update_room now w id dto = with_bump r now w (update w.0 id dto)

  unfoldable pub block_room :
      ℕ → Db × r.Store → ℕ → BlockRoomDto → Result (Unit {0}) × (Db × r.Store)
  unfolding block with_bump
  block_room now w room_id dto = with_bump r now w (block w.0 room_id dto)
