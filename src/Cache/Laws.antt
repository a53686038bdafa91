-- ===== src/Cache/Laws.antt =====
-- That a bump makes every cached search of the property unreachable.
use hotelsb2b.Common.{
  ℕ, zero, suc, ◌+◌, ◌*◌, ◌<◌, ◌≡◌, ◌≢◌, refl, sym, ap, ◌∙◌, subst, Option, none, some, List, ◌⊎◌,
  HttpError, Result, ok, err, arith, Option-cases, inl, inr,
}
use hotelsb2b.Schema.{Db}
use hotelsb2b.Availability.Search.{AvailabilityQuery, RoomTypeAvailability, compute_availability}
use hotelsb2b.Redis.{Redis, Laws, Key, avail_ver, avail, Value, number, listing}
use hotelsb2b.Cache.{
  availability_ttl_seconds, number_or_zero, as_listing, property_version, bump_property, get_json,
  set_json, search,
}

-- The entry of a version: there is none before the first bump.
abbrev pub version_entry : ℕ → Option Value
version_entry zero = none
version_entry (suc n) = some (number (suc n))

version_of_entry : (n : ℕ) → number_or_zero (version_entry n) ≡ n
version_of_entry zero = refl
version_of_entry (suc n) = refl

ver-ne : (p : ℕ) (q : AvailabilityQuery) (k : ℕ) → avail_ver p ≢ avail q k
ver-ne p q k h = absurd cc

ne-ver : (p : ℕ) (q : AvailabilityQuery) (k : ℕ) → avail q k ≢ avail_ver p
ne-ver p q k h = absurd cc

avail-version : (q q' : AvailabilityQuery) (k k' : ℕ) → avail q k ≡ avail q' k' → k ≡ k'
avail-version q q' k k' h = cc

avail-query : (q q' : AvailabilityQuery) (k k' : ℕ) → avail q k ≡ avail q' k' → q ≡ q'
avail-query q q' k k' h = cc

Result-cases :
    {A : Type 0} (r : Result A) → ((a : A) × (r ≡ ok a)) ⊎ ((e : HttpError) × (r ≡ err e))
Result-cases (ok a) = inl (a, refl)
Result-cases (err e) = inr (e, refl)

module _ (r : Redis) (laws : Laws r) where
  open r use {Store, get, set, incr}

  -- The property is at version `n`, and nothing is cached under a later one.
  pub record IsVersioned (s : Store) (p n : ℕ) : Type 0 where
    pub entry : (t : ℕ) → get s t (avail_ver p) ≡ version_entry n
    pub unused :
        (t : ℕ) (q : AvailabilityQuery) (k : ℕ)
        → q.property_id ≡ p
        → n < k
        → get s t (avail q k) ≡ none

  property_version-IsVersioned :
      (s : Store) (p n now : ℕ) → IsVersioned s p n → property_version r s now p ≡ n
  unfolding property_version
  property_version-IsVersioned s p n now v = rw (v.entry now) (version_of_entry n)

  bump_entry :
      (s : Store) (p n now t : ℕ)
      → IsVersioned s p n
      → get (incr s now (avail_ver p)).1 t (avail_ver p) ≡ some (number (suc n))
  bump_entry s p zero now t v = (laws.incr_none s now t (avail_ver p) (v.entry now)).1
  bump_entry s p (suc n) now t v =
      let (_, counted, _) = laws.incr_some s now (avail_ver p) (suc n) (v.entry now) in
      counted t (v.entry t)

  -- A bump takes the property to the next version.
  pub bump_property-IsVersioned :
      (s : Store) (p n now : ℕ)
      → IsVersioned s p n
      → IsVersioned (bump_property r s now p) p (suc n)
  unfolding bump_property
  bump_property-IsVersioned s p n now v = record {
    entry = λ t. bump_entry s p n now t v;
    unused = λ t q k same h.
        laws.get-incr_ne s now t (avail_ver p) (avail q k) (ver-ne p q k)
        ∙ v.unused t q k same (omega (arith, h));
  }

  -- The key that a search reads.
  abbrev key : Store → ℕ → AvailabilityQuery → Key
  key s now q = avail q (property_version r s now q.property_id)

  module _ (local_time : ℕ → ℕ) (db : Db) (s : Store) (now : ℕ) (q : AvailabilityQuery) where
    search_hit :
        (os : List RoomTypeAvailability)
        → get_json r s now (key s now q) ≡ some os
        → search r local_time db s now q ≡ (ok os, s)
    unfolding search
    search_hit os e = rw (e, search) refl

    search_miss :
        (os : List RoomTypeAvailability)
        → get_json r s now (key s now q) ≡ none
        → compute_availability local_time db q ≡ ok os
        → search r local_time db s now q
          ≡ (ok os, set s now (key s now q) (listing os) (some availability_ttl_seconds))
    unfolding search set_json
    search_miss os e f = rw (e, search, f) refl

    search_computed :
        get_json r s now (key s now q) ≡ none
        → (search r local_time db s now q).0 ≡ compute_availability local_time db q
    unfolding search
    search_computed e = elim (Result-cases (compute_availability local_time db q)) [
      | inl (os, f) ↦ rw (e, search, f) refl
      | inr (x, f) ↦ rw (e, search, f) refl
    ]

    -- What a search may leave in the store.
    search_store :
        (P : Store → Type 0)
        → P s
        → ((os : List RoomTypeAvailability)
            → P (set s now (key s now q) (listing os) (some availability_ttl_seconds)))
        → P (search r local_time db s now q).1
    unfolding search
    search_store P same written = elim (Option-cases (get_json r s now (key s now q))) [
      | inr (os, e) ↦ subst (λ o. P o.1) (sym (search_hit os e)) same
      | inl e ↦ elim (Result-cases (compute_availability local_time db q)) [
        | inl (os, f) ↦ subst (λ o. P o.1) (sym (search_miss os e f)) (written os)
        | inr (x, f) ↦ rw (e, search, f) same
      ]
    ]

  written-IsVersioned :
      (s : Store) (now : ℕ) (q : AvailabilityQuery) (os : List RoomTypeAvailability) (p n : ℕ)
      → IsVersioned s p n
      → IsVersioned (set s now (key s now q) (listing os) (some availability_ttl_seconds)) p n
  written-IsVersioned s now q os p n v = record {
    entry = λ t. laws.get-set_ne s now t (key s now q) (avail_ver p) _ _ (ne-ver p q _) ∙ v.entry t;
    unused = λ t q' k same h.
        let other : key s now q ≢ avail q' k = λ e.
          let one = avail-query q q' _ k e in
          let here : q.property_id ≡ p = ap (λ (x : AvailabilityQuery). x.property_id) one ∙ same in
          let version : property_version r s now q.property_id ≡ n =
            ap (property_version r s now) here ∙ property_version-IsVersioned s p n now v in
          let later = avail-version q q' _ k e in omega (arith, version, later, h) in
        laws.get-set_ne s now t (key s now q) (avail q' k) _ _ other ∙ v.unused t q' k same h;
  }

  -- A search, of whatever property, keeps the versions of all.
  pub search-IsVersioned :
      (local_time : ℕ → ℕ) (db : Db) (s : Store) (now : ℕ) (q : AvailabilityQuery) (p n : ℕ)
      → IsVersioned s p n
      → IsVersioned (search r local_time db s now q).1 p n
  search-IsVersioned local_time db s now q p n v =
      search_store local_time db s now q (λ s. IsVersioned s p n) v
        (λ os. written-IsVersioned s now q os p n v)

  -- The first search of a property after a bump is computed from the tables as they are, whatever
  -- was cached before.
  pub search-bump_property :
      (local_time : ℕ → ℕ) (db : Db) (s : Store) (n bumped now : ℕ) (q : AvailabilityQuery)
      → IsVersioned s q.property_id n
      → (search r local_time db (bump_property r s bumped q.property_id) now q).0
        ≡ compute_availability local_time db q
  unfolding get_json bump_property
  search-bump_property local_time db s n bumped now q v =
      let next = bump_property r s bumped q.property_id in
      let v' = bump_property-IsVersioned s q.property_id n bumped v in
      let version = property_version-IsVersioned next q.property_id (suc n) now v' in
      let gone : get next now (avail q (suc n)) ≡ none =
        laws.get-incr_ne s bumped now (avail_ver q.property_id) (avail q (suc n))
          (ver-ne q.property_id q (suc n))
        ∙ v.unused now q (suc n) refl (omega arith) in
      search_computed local_time db next now q (rw version (ap as_listing gone))

  -- Until its 120 seconds have passed, a search that was computed is repeated from the cache,
  -- whatever the tables hold by then, if the property has not been bumped.
  pub search-search :
      (local_time : ℕ → ℕ) (db db' : Db) (s : Store) (n now later : ℕ) (q : AvailabilityQuery)
      (os : List RoomTypeAvailability)
      → IsVersioned s q.property_id n
      → compute_availability local_time db q ≡ ok os
      → get_json r s now (avail q n) ≡ none
      → later < now + 1000 * availability_ttl_seconds
      → (search r local_time db' (search r local_time db s now q).1 later q).0 ≡ ok os
  unfolding get_json
  search-search local_time db db' s n now later q os v computed miss soon =
      let version = property_version-IsVersioned s q.property_id n now v in
      let left = set s now (key s now q) (listing os) (some availability_ttl_seconds) in
      let after = search_miss local_time db s now q os (rw version miss) computed in
      let version' =
        property_version-IsVersioned left q.property_id n later
          (written-IsVersioned s now q os q.property_id n v) in
      let cached : get left later (key s now q) ≡ some (listing os) =
        laws.get-set_self s now later (key s now q) (listing os) availability_ttl_seconds soon in
      let again : get_json r left later (key left later q) ≡ some os =
        ap (λ k. get_json r left later (avail q k)) (version' ∙ sym version)
        ∙ ap as_listing cached in
      subst (λ o. (search r local_time db' o.1 later q).0 ≡ ok os) (sym after)
        (ap (λ o. o.0) (search_hit local_time db' left later q os again))
