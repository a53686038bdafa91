-- ===== src/Availability/Search/Laws.antt =====
-- What a search lists: sound, total.
use hotelsb2b.Common.{
  ℕ, ◌≡◌, refl, sym, subst, ◌≢◌, ◌<◌, ◌≤◌, ◌⊎◌, inl, inr, true, false, List, [], ◌∷◌, Memᴰ, select,
  select-mem, length, ok, >>=-eq-ok, ok-injective, arith, leb, ltb, Bool-cases,
}
use mathlib.Core.List.Memᴰ
use hotelsb2b.Schema.{Db, RoomType, RatePlan}
use hotelsb2b.Availability.Nights.{nights}
use hotelsb2b.Availability.Pricing.{price_stay}
use hotelsb2b.Availability.Inventory.{count_available_rooms}
use hotelsb2b.Availability.Search.{
  AvailabilityQuery, PricedPlan, RoomTypeAvailability, suits, active_plans, priced_plans, offer_of,
  offers, compute_availability,
}

module _ (local_time : ℕ → ℕ) (db : Db) (q : AvailabilityQuery) where
  -- A listed plan is an active plan of the room type, open to a stay of this length, at its price.
  pub record IsPriced (room_type_id : ℕ) (p : PricedPlan) : Type 0 where
    pub plan : RatePlan
    pub listed : Memᴰ plan db.rate_plans
    pub of_type : plan.room_type_id ≡ room_type_id
    pub active : plan.active ≡ true
    pub same_id : plan.id ≡ p.rate_plan_id
    pub long_enough : plan.min_stay_nights ≤ length (nights q.check_in q.check_out)
    pub price : price_stay local_time db plan.id q.check_in q.check_out ≡ ok p.price_minor

  -- A listed room type suits the query, has a free room and offers at least one plan.
  pub record IsOffer (o : RoomTypeAvailability) : Type 0 where
    pub room_type : RoomType
    pub listed : Memᴰ room_type db.room_types
    pub suitable : suits q room_type ≡ true
    pub same_id : room_type.id ≡ o.room_type_id
    pub counted :
        count_available_rooms db q.property_id o.room_type_id q.check_in q.check_out
        ≡ o.available_rooms
    pub some_room : 0 < o.available_rooms
    pub some_plan : o.rate_plans ≢ []
    pub priced : (p : PricedPlan) → Memᴰ p o.rate_plans → IsPriced o.room_type_id p

  IsPriced-head :
      (room_type_id price : ℕ) (rp : RatePlan)
      → Memᴰ rp (active_plans db room_type_id)
      → ltb (length (nights q.check_in q.check_out)) rp.min_stay_nights ≡ false
      → price_stay local_time db rp.id q.check_in q.check_out ≡ ok price
      → IsPriced room_type_id (record {
        rate_plan_id = rp.id;
        name = rp.name;
        price_minor = price;
        currency = rp.currency;
      })
  unfolding active_plans
  IsPriced-head t price rp m long found =
      let (listed, test) = select-mem _ db.rate_plans rp m in
      record {
        plan = rp;
        listed = listed;
        of_type = ground arith;
        active = ground arith;
        same_id = refl;
        long_enough = ground arith;
        price = found;
      }

  priced_plans_sound :
      (room_type_id : ℕ) (rps : List RatePlan) (ps : List PricedPlan)
      → ((rp : RatePlan) → Memᴰ rp rps → Memᴰ rp (active_plans db room_type_id))
      → priced_plans local_time db q rps ≡ ok ps
      → (p : PricedPlan) → Memᴰ p ps
      → IsPriced room_type_id p
  unfolding priced_plans
  priced_plans_sound t [] ps within e p m =
      absurd (nothing (subst (Memᴰ p) (sym (ok-injective e)) m))
    where
      nothing : Memᴰ p [] → ⊥
      nothing k = elim k [ ]
  priced_plans_sound t (rp ∷ rps) ps within e p m =
      let within' = λ (x : RatePlan) (k : Memᴰ x rps). within x (Memᴰ.tail k) in
      elim (Bool-cases (ltb (length (nights q.check_in q.check_out)) rp.min_stay_nights)) [
        | inl short ↦ priced_plans_sound t rps ps within' (rw (short) at e) p m
        | inr long ↦
            let (price, found, e₁) =
              >>=-eq-ok (price_stay local_time db rp.id q.check_in q.check_out) _ (rw long at e) in
            let (rest, e₂, e₃) = >>=-eq-ok (priced_plans local_time db q rps) _ e₁ in
            elim (Memᴰ.cases_cons (subst (Memᴰ p) (sym (ok-injective e₃)) m)) [
              | inl same ↦
                  subst (IsPriced t) (sym same)
                    (IsPriced-head t price rp (within rp (Memᴰ.head refl)) long found)
              | inr k ↦ priced_plans_sound t rps rest within' e₂ p k
            ]
      ]

  IsOffer-head :
      (rt : RoomType) (p : PricedPlan) (ps : List PricedPlan)
      → Memᴰ rt db.room_types
      → suits q rt ≡ true
      → leb (count_available_rooms db q.property_id rt.id q.check_in q.check_out) 0 ≡ false
      → priced_plans local_time db q (active_plans db rt.id) ≡ ok (p ∷ ps)
      → IsOffer (record {
        room_type_id = rt.id;
        room_type_name = rt.name;
        available_rooms = count_available_rooms db q.property_id rt.id q.check_in q.check_out;
        rate_plans = p ∷ ps;
      })
  IsOffer-head rt p ps listed suitable some_room e = record {
    room_type = rt;
    listed = listed;
    suitable = suitable;
    same_id = refl;
    counted = refl;
    some_room = ground arith;
    some_plan = λ n. cc;
    priced = λ x m. priced_plans_sound rt.id (active_plans db rt.id) (p ∷ ps) (λ rp k. k) e x m;
  }

  mem-offer_of :
      (rt : RoomType) (plans : List PricedPlan) (rest : List RoomTypeAvailability)
      (o : RoomTypeAvailability)
      → Memᴰ rt db.room_types
      → suits q rt ≡ true
      → leb (count_available_rooms db q.property_id rt.id q.check_in q.check_out) 0 ≡ false
      → priced_plans local_time db q (active_plans db rt.id) ≡ ok plans
      → Memᴰ o (
          offer_of local_time db q rt
            (count_available_rooms db q.property_id rt.id q.check_in q.check_out)
            plans
            rest)
      → IsOffer o ⊎ Memᴰ o rest
  unfolding offer_of
  mem-offer_of rt [] rest o listed suitable some_room e m = inr m
  mem-offer_of rt (p ∷ ps) rest o listed suitable some_room e m = elim (Memᴰ.cases_cons m) [
    | inl same ↦ inl (subst IsOffer (sym same) (IsOffer-head rt p ps listed suitable some_room e))
    | inr k ↦ inr k
  ]

  offers_sound :
      (rts : List RoomType) (os : List RoomTypeAvailability)
      → ((rt : RoomType) → Memᴰ rt rts → Memᴰ rt db.room_types × (suits q rt ≡ true))
      → offers local_time db q rts ≡ ok os
      → (o : RoomTypeAvailability) → Memᴰ o os
      → IsOffer o
  unfolding offers
  offers_sound [] os within e o m = absurd (nothing (subst (Memᴰ o) (sym (ok-injective e)) m))
    where
      nothing : Memᴰ o [] → ⊥
      nothing k = elim k [ ]
  offers_sound (rt ∷ rts) os within e o m =
      let within' = λ (x : RoomType) (k : Memᴰ x rts). within x (Memᴰ.tail k) in
      let (listed, suitable) = within rt (Memᴰ.head refl) in
      elim (Bool-cases
        (leb (count_available_rooms db q.property_id rt.id q.check_in q.check_out) 0)) [
          | inl full ↦ offers_sound rts os within' (rw full at e) o m
          | inr some_room ↦
              let (plans, found, e₁) =
                >>=-eq-ok (priced_plans local_time db q (active_plans db rt.id)) _
                  (rw some_room at e) in
              let (rest, e₂, e₃) = >>=-eq-ok (offers local_time db q rts) _ e₁ in
              elim (mem-offer_of rt plans rest o listed suitable some_room found
                (subst (Memᴰ o) (sym (ok-injective e₃)) m)) [
                  | inl here ↦ here
                  | inr k ↦ offers_sound rts rest within' e₂ o k
                ]
        ]

  -- What a search lists is so: the room type suits the query and has as many free rooms as said, at
  -- least one; its plans, at least one, are active, open to a stay of this length, and have the price
  -- that `priceStay` gives for the stay.
  pub compute_availability_sound :
      (os : List RoomTypeAvailability)
      → compute_availability local_time db q ≡ ok os
      → (o : RoomTypeAvailability) → Memᴰ o os
      → IsOffer o
  unfolding compute_availability
  compute_availability_sound os e =
      offers_sound (select (suits q) db.room_types) os (select-mem (suits q) db.room_types) e
