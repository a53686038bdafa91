-- ===== src/Bookings/Reading/Preview.antt =====
-- What the preview of a cancellation promises.
use hotelsb2b.Common.{
  ℕ, ◌+◌, ◌-◌, ◌≤◌, ◌≡◌, refl, sym, ap, ◌∙◌, subst, true, false, Option, none, some, List, [], ◌∷◌,
  find, ok, >>=-eq-ok, or_throw-eq-ok, ok-injective, arith, ◌==◌,
}
use hotelsb2b.Schema.{Db, Booking, BookingRoom, RatePlan, pos}
use hotelsb2b.Bookings.Reading.{
  RoomPreview, CancellationPreview, is_over, is_refundable, preview_room, preview_rooms,
  sum_refundable, rooms_of, cancellation_preview, minus,
}

-- What the rows of a booking cost.
abbrev pub sum_rows : List BookingRoom → ℕ
sum_rows [] = 0
sum_rows (r ∷ rs) = r.price_minor + sum_rows rs

some-injective : {A : Type 0} {a b : A} → some a ≡ some b → a ≡ b
some-injective h = cc

minus_le : (a b : ℕ) → b ≤ a → minus a b ≡ pos (a - b)
minus_le a b h = ground arith

is_over-later :
    (now later check_in : ℕ) (hours : Option ℕ)
    → now ≤ later
    → is_over later check_in hours ≡ false
    → is_over now check_in hours ≡ false
unfolding is_over
is_over-later now later check_in none h e = refl
is_over-later now later check_in (some hours) h e = ground arith

is_refundable-later :
    (now later : ℕ) (rp : RatePlan) (r : BookingRoom)
    → now ≤ later
    → is_refundable later rp r ≡ true
    → is_refundable now rp r ≡ true
unfolding is_refundable
is_refundable-later now later rp r h e =
    ground (arith, is_over-later now later r.check_in rp.refundable_until_hrs h)

room-le-price :
    (now : ℕ) (rp : RatePlan) (r : BookingRoom)
    → (preview_room now rp r).refundable_minor ≤ r.price_minor
unfolding preview_room
room-le-price now rp r = ground arith

room-later :
    (now later : ℕ) (rp : RatePlan) (r : BookingRoom)
    → now ≤ later
    → (preview_room later rp r).refundable_minor ≤ (preview_room now rp r).refundable_minor
unfolding preview_room
room-later now later rp r h = ground (arith, is_refundable-later now later rp r)

preview_rooms-cons :
    (db : Db) (now : ℕ) (r : BookingRoom) (rs : List BookingRoom) (ps : List RoomPreview)
    → preview_rooms db now (r ∷ rs) ≡ ok ps
    → (rp : RatePlan) × (find (λ p. p.id == r.rate_plan_id) db.rate_plans ≡ some rp)
      × (later : List RoomPreview) × (preview_rooms db now rs ≡ ok later)
      × (preview_room now rp r ∷ later ≡ ps)
unfolding preview_rooms
preview_rooms-cons db now r rs ps e =
    let (rp, found, e₁) = or_throw-eq-ok (find (λ p. p.id == r.rate_plan_id) db.rate_plans) _ _ e in
    let (later, f, e₂) = >>=-eq-ok (preview_rooms db now rs) _ e₁ in
    (rp, found, later, f, ok-injective e₂)

sum-le-sum_rows :
    (db : Db) (now : ℕ) (rs : List BookingRoom) (ps : List RoomPreview)
    → preview_rooms db now rs ≡ ok ps
    → sum_refundable ps ≤ sum_rows rs
unfolding preview_rooms sum_refundable
sum-le-sum_rows db now [] ps e = rw (sym (ok-injective e)) (omega arith)
sum-le-sum_rows db now (r ∷ rs) ps e =
    let (rp, _, later, f, same) = preview_rooms-cons db now r rs ps e in
    let here = room-le-price now rp r in
    let rest = sum-le-sum_rows db now rs later f in rw (sym same) (omega (arith, here, rest))

sum-later :
    (db : Db) (now soon : ℕ) (rs : List BookingRoom) (ps qs : List RoomPreview)
    → now ≤ soon
    → preview_rooms db now rs ≡ ok ps
    → preview_rooms db soon rs ≡ ok qs
    → sum_refundable qs ≤ sum_refundable ps
unfolding preview_rooms sum_refundable
sum-later db now soon [] ps qs h e f = rw (sym (ok-injective e), sym (ok-injective f)) (omega arith)
sum-later db now soon (r ∷ rs) ps qs h e f =
    let (rp, found, ps', e₁, same_p) = preview_rooms-cons db now r rs ps e in
    let (rq, found', qs', f₁, same_q) = preview_rooms-cons db soon r rs qs f in
    let same : rp ≡ rq = some-injective (sym found ∙ found') in
    let here =
      subst
        (λ p. (preview_room soon p r).refundable_minor ≤ (preview_room now rp r).refundable_minor)
        same (room-later now soon rp r h) in
    let rest = sum-later db now soon rs ps' qs' h e₁ f₁ in
    rw (sym same_p, sym same_q) (omega (arith, here, rest))

-- What a preview was computed from.
cancellation_preview-rooms :
    (db : Db) (now id : ℕ) (p : CancellationPreview)
    → cancellation_preview db now id ≡ ok p
    → (b : Booking) × (find (λ b. b.id == id) db.bookings ≡ some b)
      × (rooms : List RoomPreview) × (preview_rooms db now (rooms_of db id) ≡ ok rooms)
      × (p.refundable_minor ≡ sum_refundable rooms)
      × (p.non_refundable_minor ≡ minus b.total_minor (sum_refundable rooms))
unfolding cancellation_preview
cancellation_preview-rooms db now id p e =
    let (b, found, e₁) = or_throw-eq-ok (find (λ b. b.id == id) db.bookings) _ _ e in
    let (rooms, f, e₂) = >>=-eq-ok (preview_rooms db now (rooms_of db id)) _ e₁ in
    let same = sym (ok-injective e₂) in
    (
      b,
      found,
      rooms,
      f,
      ap (λ (p : CancellationPreview). p.refundable_minor) same,
      ap (λ (p : CancellationPreview). p.non_refundable_minor) same,
    )

-- A preview splits the total of the booking in two: where the total is what its rooms cost, what is
-- refunded and what is not add up to it, and the second is not negative.
pub cancellation_preview-splits :
    (db : Db) (now id : ℕ) (b : Booking) (p : CancellationPreview)
    → find (λ b. b.id == id) db.bookings ≡ some b
    → b.total_minor ≡ sum_rows (rooms_of db id)
    → cancellation_preview db now id ≡ ok p
    → (kept : ℕ) × (p.non_refundable_minor ≡ pos kept) × (p.refundable_minor + kept ≡ b.total_minor)
cancellation_preview-splits db now id b p found total e =
    let (b', found', rooms, f, back, kept) = cancellation_preview-rooms db now id p e in
    let same : b' ≡ b = some-injective (sym found' ∙ found) in
    let least : sum_refundable rooms ≤ b.total_minor =
      rw total (sum-le-sum_rows db now (rooms_of db id) rooms f) in
    let kept' =
      subst (λ c. p.non_refundable_minor ≡ minus c.total_minor (sum_refundable rooms)) same kept in
    (
      b.total_minor - sum_refundable rooms,
      kept' ∙ minus_le _ _ least,
      rw back (omega (arith, least)),
    )

-- Waiting never raises a refund.
pub cancellation_preview-later :
    (db : Db) (now later id : ℕ) (p q : CancellationPreview)
    → now ≤ later
    → cancellation_preview db now id ≡ ok p
    → cancellation_preview db later id ≡ ok q
    → q.refundable_minor ≤ p.refundable_minor
cancellation_preview-later db now later id p q h e f =
    let (_, _, ps, ep, back_p, _) = cancellation_preview-rooms db now id p e in
    let (_, _, qs, eq, back_q, _) = cancellation_preview-rooms db later id q f in
    rw (back_p, back_q) (sum-later db now later (rooms_of db id) ps qs h ep eq)
