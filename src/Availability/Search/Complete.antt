-- ===== src/Availability/Search/Complete.antt =====
-- A search always has an answer, and leaves out nothing that it should list.
use hotelsb2b.Common.{
  ℕ, ◌≡◌, refl, sym, subst, ◌≢◌, ◌<◌, ◌≤◌, inl, inr, true, List, [], ◌∷◌, Memᴰ, select, select-mem,
  mem-select, find, find-none, length, ok, arith, leb, ltb, ◌==◌, ==_refl, Bool-cases, Option-cases,
}
use mathlib.Core.List.Memᴰ
use hotelsb2b.Schema.{Db, RoomType, RatePlan}
use hotelsb2b.Availability.Nights.{nights}
use hotelsb2b.Availability.Pricing.{price_stay, total_price}
use hotelsb2b.Availability.Inventory.{count_available_rooms}
use hotelsb2b.Availability.Search.{
  AvailabilityQuery, PricedPlan, RoomTypeAvailability, suits, active_plans, priced_plans, offer_of,
  offers, compute_availability,
}

module _ (local_time : ℕ → ℕ) (db : Db) where
  -- A plan of the table has a price for every stay.
  pub price_stay_total :
      (rp : RatePlan) (check_in check_out : ℕ)
      → Memᴰ rp db.rate_plans
      → (price : ℕ) × (price_stay local_time db rp.id check_in check_out ≡ ok price)
  unfolding price_stay
  price_stay_total rp check_in check_out m =
      elim (Option-cases (find (λ p. p.id == rp.id) db.rate_plans)) [
        | inl e ↦ absurd (ground (arith, find-none _ db.rate_plans e rp m, ==_refl rp.id))
        | inr (plan, e) ↦ (total_price local_time plan 0 (nights check_in check_out), rw e)
      ]

module _ (local_time : ℕ → ℕ) (db : Db) (q : AvailabilityQuery) where
  abbrev pub Fits : RatePlan → Type 0
  Fits rp = rp.min_stay_nights ≤ length (nights q.check_in q.check_out)

  priced_plans_total :
      (rps : List RatePlan)
      → ((rp : RatePlan) → Memᴰ rp rps → Memᴰ rp db.rate_plans)
      → (ps : List PricedPlan) × (priced_plans local_time db q rps ≡ ok ps)
        × ((rp : RatePlan) → Memᴰ rp rps → Fits rp → ps ≢ [])
  unfolding priced_plans
  priced_plans_total [] within = ([], refl, λ rp m f e. elim m [ ])
  priced_plans_total (rp ∷ rps) within =
      let (rest, e, some_plan) = priced_plans_total rps (λ x k. within x (Memᴰ.tail k)) in
      elim (Bool-cases (ltb (length (nights q.check_in q.check_out)) rp.min_stay_nights)) [
        | inl short ↦ (
          rest,
          rw short e,
          λ x m f n. elim (Memᴰ.cases_cons m) [
            | inl same ↦ let f' = subst Fits same f in absurd (ground arith)
            | inr k ↦ some_plan x k f n
          ],
        )
        | inr long ↦
            let (price, found) =
              price_stay_total local_time db rp q.check_in q.check_out
                (within rp (Memᴰ.head refl)) in
            (
              record {
                rate_plan_id = rp.id;
                name = rp.name;
                price_minor = price;
                currency = rp.currency;
              }
                  ∷ rest,
              rw (long, found, e),
              λ x m f n. cc,
            )
      ]

  -- A room type that a search must list.
  pub record MustList (rt : RoomType) : Type 0 where
    pub some_room : 0 < count_available_rooms db q.property_id rt.id q.check_in q.check_out
    pub plan : RatePlan
    pub listed : Memᴰ plan (active_plans db rt.id)
    pub long_enough : Fits plan

  Listed : RoomType → List RoomTypeAvailability → Type 0
  Listed rt os = (o : RoomTypeAvailability) × Memᴰ o os × (o.room_type_id ≡ rt.id)

  Listed-cons :
      (rt : RoomType) (os : List RoomTypeAvailability) (o : RoomTypeAvailability)
      → Listed rt os
      → Listed rt (o ∷ os)
  unfolding Listed
  Listed-cons rt os o (p, m, e) = (p, Memᴰ.tail m, e)

  Listed-offer_of :
      (rt r : RoomType) (available : ℕ) (plans : List PricedPlan) (os : List RoomTypeAvailability)
      → Listed rt os
      → Listed rt (offer_of local_time db q r available plans os)
  unfolding offer_of
  Listed-offer_of rt r available [] os l = l
  Listed-offer_of rt r available (p ∷ ps) os l = Listed-cons rt os _ l

  offer_of-Listed :
      (rt : RoomType) (available : ℕ) (plans : List PricedPlan) (os : List RoomTypeAvailability)
      → plans ≢ []
      → Listed rt (offer_of local_time db q rt available plans os)
  unfolding offer_of Listed
  offer_of-Listed rt available [] os n = absurd (n refl)
  offer_of-Listed rt available (p ∷ ps) os n = (_, Memᴰ.head refl, refl)

  active_plans-mem : (id : ℕ) (rp : RatePlan) → Memᴰ rp (active_plans db id) → Memᴰ rp db.rate_plans
  unfolding active_plans
  active_plans-mem id rp m = (select-mem _ db.rate_plans rp m).0

  offers_total :
      (rts : List RoomType)
      → (os : List RoomTypeAvailability) × (offers local_time db q rts ≡ ok os)
        × ((rt : RoomType) → Memᴰ rt rts → MustList rt → Listed rt os)
  unfolding offers
  offers_total [] = ([], refl, λ rt m w. elim m [ ])
  offers_total (r ∷ rts) =
      let (rest, e, later) = offers_total rts in
      elim (Bool-cases
        (leb (count_available_rooms db q.property_id r.id q.check_in q.check_out) 0)) [
          | inl full ↦ (
            rest,
            rw full e,
            λ rt m w. elim (Memᴰ.cases_cons m) [
              | inl same ↦ absurd (closed (subst MustList same w) full)
              | inr k ↦ later rt k w
            ],
          )
          | inr open_ ↦
              let available = count_available_rooms db q.property_id r.id q.check_in q.check_out in
              let (plans, found, some_plan) =
                priced_plans_total (active_plans db r.id) (active_plans-mem r.id) in
              (
                offer_of local_time db q r available plans rest,
                rw (open_, found, e),
                λ rt m w. elim (Memᴰ.cases_cons m) [
                  | inl same ↦
                      let w' = subst MustList same w in
                      subst (λ x. Listed x (offer_of local_time db q r available plans rest))
                        (sym same)
                        (offer_of-Listed r available plans rest
                          (some_plan w'.plan w'.listed w'.long_enough))
                  | inr k ↦ Listed-offer_of rt r available plans rest (later rt k w)
                ],
              )
        ]
    where
      closed :
          {rt : RoomType}
          → MustList rt
          → leb (count_available_rooms db q.property_id rt.id q.check_in q.check_out) 0 ≡ true
          → ⊥
      closed w full = absurd (ground (arith, w.some_room))

  -- A search has an answer, and lists every room type that suits it, has a free room and has an
  -- active plan that is open to a stay of this length.
  pub compute_availability_complete :
      (os : List RoomTypeAvailability) × (compute_availability local_time db q ≡ ok os)
      × ((rt : RoomType)
          → Memᴰ rt db.room_types
          → suits q rt ≡ true
          → MustList rt
          → (o : RoomTypeAvailability) × Memᴰ o os × (o.room_type_id ≡ rt.id))
  unfolding compute_availability Listed
  compute_availability_complete =
      let (os, e, listed) = offers_total (select (suits q) db.room_types) in
      (os, e, λ rt m s w. listed rt (mem-select (suits q) db.room_types rt m s) w)
