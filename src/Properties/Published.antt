-- ===== src/Properties/Published.antt =====
-- What a search over properties lists.
use hotelsb2b.Common.{
  ℕ, zero, suc, ◌≡◌, ◌≤◌, ◌⊎◌, refl, sym, ap, ◌∙◌, subst, Bool, true, Option, none, some, List, [],
  ◌∷◌, Memᴰ, map, Text, take, trim, length, select-mem, ok, >>=-eq-ok, ok-injective, arith,
  Bool-cases, Option-cases, inl, inr,
}
use mathlib.Core.List.Memᴰ
use hotelsb2b.Schema.{Db, Property}
use hotelsb2b.Dates.{midnight}
use hotelsb2b.Redis.{Redis}
use hotelsb2b.Availability.Search.{AvailabilityQuery}
use hotelsb2b.Cache
use hotelsb2b.Properties.{insert_by_name, sort_by_name, find_published}
use hotelsb2b.Properties.Destinations.{
  search_trimmed, search_properties, SearchDto, SearchResultRow, valid_dates, search_each,
  search_between, run_search,
}

take-mem : (n : ℕ) (ps : List Property) (p : Property) → Memᴰ p (take n ps) → Memᴰ p ps
take-mem zero ps p m = elim m [ ]
take-mem (suc n) [] p m = elim m [ ]
take-mem (suc n) (q ∷ ps) p (Memᴰ.head e) = Memᴰ.head e
take-mem (suc n) (q ∷ ps) p (Memᴰ.tail m) = Memᴰ.tail (take-mem n ps p m)

length-take : (n : ℕ) (ps : List Property) → length (take n ps) ≤ n
length-take zero ps = omega arith
length-take (suc n) [] = omega arith
length-take (suc n) (p ∷ ps) = omega (arith, length-take n ps)

abbrev property_of : SearchResultRow → Property
property_of x = x.property

length-map : (rows : List SearchResultRow) → length (map property_of rows) ≡ length rows
length-map [] = refl
length-map (x ∷ rows) = ap suc (length-map rows)

mem-map :
    (rows : List SearchResultRow) (x : SearchResultRow)
    → Memᴰ x rows
    → Memᴰ x.property (map property_of rows)
mem-map [] x m = elim m [ ]
mem-map (y ∷ rows) x (Memᴰ.head e) = Memᴰ.head (ap property_of e)
mem-map (y ∷ rows) x (Memᴰ.tail m) = Memᴰ.tail (mem-map rows x m)

map-constant :
    (ps : List Property)
    → map property_of (map (λ (p : Property). record { property = p; availability = [] }) ps) ≡ ps
map-constant [] = refl
map-constant (p ∷ ps) = ap (λ qs. p ∷ qs) (map-constant ps)

module _ (precedes : Text → Text → Bool) where
  insert_by_name-mem :
      (q : Property) (ps : List Property) (p : Property)
      → Memᴰ p (insert_by_name precedes q ps)
      → (p ≡ q) ⊎ Memᴰ p ps
  unfolding insert_by_name
  insert_by_name-mem q [] p (Memᴰ.head e) = inl e
  insert_by_name-mem q [] p (Memᴰ.tail m) = elim m [ ]
  insert_by_name-mem q (x ∷ ps) p m = elim (Bool-cases (precedes x.name q.name)) [
    | inl e ↦ elim (Memᴰ.cases_cons (rw e at m)) [
      | inl here ↦ inr (Memᴰ.head here)
      | inr k ↦ elim (insert_by_name-mem q ps p k) [
        | inl here ↦ inl here
        | inr k' ↦ inr (Memᴰ.tail k')
      ]
    ]
    | inr e ↦ Memᴰ.cases_cons (rw e at m)
  ]

  sort_by_name-mem :
      (ps : List Property) (p : Property) → Memᴰ p (sort_by_name precedes ps) → Memᴰ p ps
  unfolding sort_by_name
  sort_by_name-mem [] p m = elim m [ ]
  sort_by_name-mem (q ∷ ps) p m = elim (insert_by_name-mem q (sort_by_name precedes ps) p m) [
    | inl here ↦ Memᴰ.head here
    | inr k ↦ Memᴰ.tail (sort_by_name-mem ps p k)
  ]

  searched_blank :
      (full_text : Db → Text → ℕ → List Property) (db : Db) (given : Option Text)
      (destination : Text)
      → given ≡ some destination
      → trim destination ≡ []
      → search_properties precedes full_text db given ≡ take 20 (find_published precedes db)
  unfolding search_properties search_trimmed
  searched_blank full_text db given destination e blank =
      ap (search_properties precedes full_text db) e
      ∙ ap (search_trimmed precedes full_text db) blank

  module _ (r : Redis) (local_time : ℕ → ℕ) where
    search_each-properties :
        (db : Db) (i o : ℕ) (dto : SearchDto) (now : ℕ) (ps : List Property) (s : r.Store)
        (rows : List SearchResultRow)
        → (search_each r local_time db i o dto now ps s).0 ≡ ok rows
        → map property_of rows ≡ ps
    unfolding search_each
    search_each-properties db i o dto now [] s rows h = ap (map property_of) (sym (ok-injective h))
    search_each-properties db i o dto now (p ∷ ps) s rows h =
        let q : AvailabilityQuery = record {
          property_id = p.id;
          check_in = i;
          check_out = o;
          adults = dto.adults;
          children = dto.children;
        } in
        let (a, _, h₁) = >>=-eq-ok (Cache.search r local_time db s now q).0 _ h in
        let (later, run, h₂) =
          >>=-eq-ok
            (search_each r local_time db i o dto now ps (Cache.search r local_time db s now q).1).0
            (λ rows. ok (record { property = p; availability = a } ∷ rows)) h₁ in
        ap (map property_of) (sym (ok-injective h₂))
        ∙ ap (λ qs. p ∷ qs)
            (search_each-properties db i o dto now ps (Cache.search r local_time db s now q).1 later
              run)

    search_between-properties :
        (db : Db) (i o : Option ℕ) (dto : SearchDto) (now : ℕ) (ps : List Property) (s : r.Store)
        (rows : List SearchResultRow)
        → (search_between r local_time db i o dto now ps s).0 ≡ ok rows
        → map property_of rows ≡ ps
    unfolding search_between
    search_between-properties db (some i) (some o) dto now ps s rows h =
        search_each-properties db i o dto now ps s rows h
    search_between-properties db (some i) none dto now [] s rows h =
        ap (map property_of) (sym (ok-injective h))
    search_between-properties db (some i) none dto now (p ∷ ps) s rows h = absurd cc
    search_between-properties db none o dto now [] s rows h =
        ap (map property_of) (sym (ok-injective h))
    search_between-properties db none o dto now (p ∷ ps) s rows h = absurd cc

    -- A search that answers has one row for each property that the search over properties finds, in
    -- its order, with or without dates; where no destination is given, or a blank one, these are
    -- published properties of the database, at most twenty.
    pub run_search_sound :
        (full_text : Db → Text → ℕ → List Property) (db : Db) (dto : SearchDto) (now : ℕ)
        (s : r.Store) (rows : List SearchResultRow)
        → (run_search r local_time precedes full_text db dto now s).0 ≡ ok rows
        → (map property_of rows ≡ search_properties precedes full_text db dto.destination)
          × ((destination : Text)
              → dto.destination ≡ some destination
              → trim destination ≡ []
              → (length rows ≤ 20)
                × ((x : SearchResultRow)
                    → Memᴰ x rows
                    → Memᴰ x.property db.properties × (x.property.active ≡ true)))
    unfolding run_search find_published
    run_search_sound full_text db dto now s rows h =
        let ps = search_properties precedes full_text db dto.destination in
        let listed : map property_of rows ≡ ps =
          elim (Option-cases (valid_dates dto.check_in dto.check_out)) [
            | inl e ↦
                ap (map property_of) (sym (ok-injective (rw (e, run_search) at h)))
                ∙ map-constant ps
            | inr (dates, e) ↦
                search_between-properties db (midnight dates.0) (midnight dates.1) dto now ps s rows
                  (rw (e, run_search) at h)
          ] in
        (
          listed,
          λ destination given blank.
              let all_published =
                listed ∙ searched_blank full_text db dto.destination destination given blank in
              (
                subst (λ n. n ≤ 20) (ap length (sym all_published) ∙ length-map rows)
                    (length-take 20 (find_published precedes db)),
                λ x m.
                    select-mem (λ (p : Property). p.active) db.properties x.property
                      (sort_by_name-mem _ x.property (
                        take-mem 20 _ x.property
                          (subst (Memᴰ x.property) all_published (mem-map rows x m)))),
              ),
        )
