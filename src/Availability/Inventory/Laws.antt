-- ===== src/Availability/Inventory/Laws.antt =====
-- What a reservation guarantees, and when it fails.
use hotelsb2b.Common.{
  ℕ, ◌≡◌, refl, ap, subst, fun_ext, ◌<◌, inl, inr, ◌↔◌, Bool, true, false, not, ◌&&◌, none, some,
  List, [], ◌∷◌, Text, Memᴰ, any, not_any, select, select-mem, mem-select, length, ok, err,
  or_throw-eq-ok, ok-injective, conflict, arith, Bool-cases, Option-cases,
}
use hotelsb2b.Schema.{Db, Room, RoomBlock, BookingRoom, is_out_of_service}
use hotelsb2b.Availability.Inventory.{
  overlapping_booking, overlapping_block, is_free, is_locked, count_available_rooms,
  first_by_number, reserve_available_room,
}

module _ (db : Db) (property_id room_type_id check_in check_out : ℕ) where
  -- The room can be given to a stay: it is a room of the type, in use, and no booking that holds
  -- inventory and no block overlaps the stay.
  pub record IsFree (r : Room) : Type 0 where
    pub of_property : r.property_id ≡ property_id
    pub of_type : r.room_type_id ≡ room_type_id
    pub active : r.active ≡ true
    pub in_service : is_out_of_service r.status ≡ false
    pub unbooked :
        (br : BookingRoom)
        → Memᴰ br db.booking_rooms
        → overlapping_booking db r.id check_in check_out br ≡ false
    pub unblocked :
        (rb : RoomBlock)
        → Memᴰ rb db.room_blocks
        → overlapping_block r.id check_in check_out rb ≡ false

  is_free-IsFree :
      (r : Room) → is_free db property_id room_type_id check_in check_out r ≡ true → IsFree r
  unfolding is_free
  is_free-IsFree r h = record {
    of_property = ground arith;
    of_type = ground arith;
    active = ground arith;
    in_service = ground arith;
    unbooked = not_any _ db.booking_rooms (ground arith);
    unblocked = not_any _ db.room_blocks (ground arith);
  }

module _ (precedes : Text → Text → Bool) where
  first_by_number-mem :
      (rs : List Room) (r : Room) → first_by_number precedes rs ≡ some r → Memᴰ r rs
  unfolding first_by_number
  first_by_number-mem [] r h = absurd (cc)
  first_by_number-mem (x ∷ rs) r h = elim (Option-cases (first_by_number precedes rs)) [
    | inl e ↦ Memᴰ.head (ground arith)
    | inr (q, e) ↦ elim (Bool-cases (precedes q.number x.number)) [
      | inl p ↦ Memᴰ.tail (first_by_number-mem rs r (ground arith))
      | inr p ↦ Memᴰ.head (ground arith)
    ]
  ]

  first_by_number-none : (rs : List Room) → first_by_number precedes rs ≡ none → rs ≡ []
  unfolding first_by_number
  first_by_number-none [] h = refl
  first_by_number-none (x ∷ rs) h = absurd (ground arith)

  module _ (locked : List ℕ) (db : Db) (property_id room_type_id check_in check_out : ℕ) where
    -- The test of the reserving query.
    abbrev pub is_candidate : Room → Bool
    is_candidate r =
        is_free db property_id room_type_id check_in check_out r && not (is_locked locked r)

    -- A reserved room is a row of the table that is free for the stay and not locked by another
    -- transaction.
    pub reserve_sound :
        (id : ℕ)
        → reserve_available_room precedes locked db property_id room_type_id check_in check_out
          ≡ ok id
        → (r : Room) × Memᴰ r db.rooms
          × (r.id ≡ id)
          × IsFree db property_id room_type_id check_in check_out r
          × (is_locked locked r ≡ false)
    unfolding reserve_available_room
    reserve_sound id h =
        let (r, found, same) =
          or_throw-eq-ok (first_by_number precedes (select is_candidate db.rooms)) _ _ h in
        let (m, test) = select-mem is_candidate db.rooms r (first_by_number-mem _ r found) in
        (
          r,
          m,
          ok-injective same,
          is_free-IsFree db property_id room_type_id check_in check_out r (ground arith),
          ground arith,
        )

    -- The reservation is refused exactly when every free room is locked.
    pub reserve_refused_iff :
        (reserve_available_room precedes locked db property_id room_type_id check_in check_out
          ≡ err (conflict "No availability for the selected room type and dates"))
        ↔ ((r : Room)
            → Memᴰ r db.rooms
            → is_free db property_id room_type_id check_in check_out r ≡ true
            → is_locked locked r ≡ true)
    unfolding reserve_available_room
    reserve_refused_iff = (to, from)
      where
        empty : {rs : List Room} → rs ≡ [] → (r : Room) → Memᴰ r rs → ⊥
        empty e r m = elim (subst (Memᴰ r) e m) [ ]

        to :
            reserve_available_room precedes locked db property_id room_type_id check_in check_out
              ≡ err (conflict "No availability for the selected room type and dates")
            → (r : Room) → Memᴰ r db.rooms
            → is_free db property_id room_type_id check_in check_out r ≡ true
            → is_locked locked r ≡ true
        to h r m free = elim (Bool-cases (is_locked locked r)) [
          | inl l ↦ l
          | inr u ↦ absurd (
              empty (first_by_number-none _ (ground arith)) r
                (mem-select is_candidate db.rooms r m (ground arith)))
        ]

        from :
            ((r : Room)
              → Memᴰ r db.rooms
              → is_free db property_id room_type_id check_in check_out r ≡ true
              → is_locked locked r ≡ true)
            → reserve_available_room precedes locked db property_id room_type_id check_in check_out
              ≡ err (conflict "No availability for the selected room type and dates")
        from all_locked =
            elim (Option-cases (first_by_number precedes (select is_candidate db.rooms))) [
              | inl e ↦ rw e
              | inr (r, e) ↦
                  let (m, test) = select-mem is_candidate db.rooms r (first_by_number-mem _ r e) in
                  absurd (ground (arith, all_locked r m))
            ]

  first_by_number-some :
      (rs : List Room) → 0 < length rs → (r : Room) × (first_by_number precedes rs ≡ some r)
  first_by_number-some rs h = elim (Option-cases (first_by_number precedes rs)) [
    | inl e ↦ absurd (omega (arith, ap length (first_by_number-none rs e)))
    | inr found ↦ found
  ]

  module _ (db : Db) (property_id room_type_id check_in check_out : ℕ) where
    unlocked :
        (r : Room)
        → is_candidate [] db property_id room_type_id check_in check_out r
          ≡ is_free db property_id room_type_id check_in check_out r
    unfolding is_locked any
    unlocked r = ground arith

    -- What the search counts is what a reservation finds: with no row locked, a reservation
    -- succeeds if the count is positive and is refused if it is 0.
    pub reserve-count :
        (0 < count_available_rooms db property_id room_type_id check_in check_out
          → (id : ℕ) × (reserve_available_room precedes [] db property_id room_type_id check_in
                check_out
              ≡ ok id))
        × (count_available_rooms db property_id room_type_id check_in check_out ≡ 0
            → reserve_available_room precedes [] db property_id room_type_id check_in check_out
              ≡ err (conflict "No availability for the selected room type and dates"))
    unfolding reserve_available_room count_available_rooms
    reserve-count = (some_room, no_room)
      where
        free_rooms : List Room
        free_rooms = select (is_free db property_id room_type_id check_in check_out) db.rooms

        same :
            select (is_candidate [] db property_id room_type_id check_in check_out) db.rooms
            ≡ free_rooms
        same = ap (λ p. select p db.rooms) (fun_ext unlocked)

        some_room :
            0 < length free_rooms
            → (id : ℕ) × (reserve_available_room precedes [] db property_id room_type_id check_in
                  check_out
                ≡ ok id)
        some_room h = let (r, e) = first_by_number-some free_rooms h in (r.id, rw (same, e))

        no_room :
            length free_rooms ≡ 0
            → reserve_available_room precedes [] db property_id room_type_id check_in check_out
              ≡ err (conflict "No availability for the selected room type and dates")
        no_room h = elim (Option-cases (first_by_number precedes free_rooms)) [
          | inl e ↦ rw (same, e)
          | inr (r, e) ↦ absurd (nonempty free_rooms (first_by_number-mem free_rooms r e) h)
        ]
          where
            nonempty : (rs : List Room) {r : Room} → Memᴰ r rs → length rs ≡ 0 → ⊥
            nonempty [] m e = elim m [ ]
            nonempty (x ∷ rs) m e = absurd (omega arith)
