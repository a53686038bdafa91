-- ===== src/Properties/Destinations.antt =====
-- The search over properties of apps/api/src/modules/search. The full-text query of PostgreSQL is a
-- parameter.
use hotelsb2b.Common.{
  ℕ, Bool, Option, none, some, List, [], ◌∷◌, map, Text, trim, take, Result, ok, err, internal,
  ◌>>=◌, if◌then◌else◌,
}
use hotelsb2b.Schema.{Db, Property}
use hotelsb2b.Dates.{midnight}
use hotelsb2b.Schemas.{text_ltb}
use hotelsb2b.Redis.{Redis}
use hotelsb2b.Availability.Search.{RoomTypeAvailability}
use hotelsb2b.Cache
use hotelsb2b.Properties.{find_published}

module _ (precedes : Text → Text → Bool) where
  -- The limit that a search without one has.
  abbrev pub default_limit : ℕ
  default_limit = 20

  -- `searchProperties`: all published properties where no destination is given, or a blank one.
  unfoldable pub search_trimmed : (Db → Text → ℕ → List Property) → Db → Text → List Property
  unfolding find_published
  search_trimmed full_text db [] = take 20 (find_published precedes db)
  search_trimmed full_text db (c ∷ q) = full_text db (c ∷ q) 20

  unfoldable pub search_properties :
      (Db → Text → ℕ → List Property) → Db → Option Text → List Property
  unfolding search_trimmed
  search_properties full_text db none = search_trimmed full_text db []
  search_properties full_text db (some destination) = search_trimmed full_text db (trim destination)

-- The query of `GET /search`, with the party that its validation defaults.
pub record SearchDto : Type 0 where
  pub destination : Option Text
  pub check_in : Option Text
  pub check_out : Option Text
  pub adults : ℕ
  pub children : ℕ

pub record SearchResultRow : Type 0 where
  pub property : Property
  pub availability : List RoomTypeAvailability

-- `datesValid`, with both dates cut to ten characters.
unfoldable pub valid_dates : Option Text → Option Text → Option (Text × Text)
valid_dates (some (c ∷ check_in)) (some (d ∷ check_out)) =
    if text_ltb (take 10 (c ∷ check_in)) (take 10 (d ∷ check_out))
    then some (take 10 (c ∷ check_in), take 10 (d ∷ check_out))
    else none
valid_dates _ _ = none

module _ (r : Redis) (local_time : ℕ → ℕ) where
  -- The searches of the properties, one after the other.
  unfoldable pub search_each :
      Db → ℕ → ℕ → SearchDto → ℕ → List Property → r.Store → Result (List SearchResultRow) × r.Store
  search_each db check_in check_out dto now [] s = (ok [], s)
  search_each db check_in check_out dto now (p ∷ ps) s =
      let (found, s₁) = Cache.search r local_time db s now (record {
        property_id = p.id;
        check_in = check_in;
        check_out = check_out;
        adults = dto.adults;
        children = dto.children;
      }) in
      let (later, s₂) = search_each db check_in check_out dto now ps s₁ in
      (
        (do
          availability ← found
          rows ← later
          ok (record { property = p; availability = availability } ∷ rows)),
        s₂,
      )

  -- With the dates as instants; an invalid one has no ISO text, which the keys of the cache want.
  unfoldable pub search_between :
      Db
      → Option ℕ
      → Option ℕ
      → SearchDto
      → ℕ
      → List Property
      → r.Store
      → Result (List SearchResultRow) × r.Store
  unfolding search_each
  search_between db (some check_in) (some check_out) dto now ps s =
      search_each db check_in check_out dto now ps s
  search_between db check_in check_out dto now [] s = (ok [], s)
  search_between db check_in check_out dto now (p ∷ ps) s = (err (internal "Invalid time value"), s)

  -- `SearchController.run`.
  unfoldable pub run_search :
      (Text → Text → Bool)
      → (Db → Text → ℕ → List Property)
      → Db
      → SearchDto
      → ℕ
      → r.Store
      → Result (List SearchResultRow) × r.Store
  unfolding valid_dates search_properties search_between
  run_search precedes full_text db dto now s =
      let properties = search_properties precedes full_text db dto.destination in
      elim (valid_dates dto.check_in dto.check_out) [
        | none ↦
            (ok (map (λ (p : Property). record { property = p; availability = [] }) properties), s)
        | some dates ↦ search_between db (midnight dates.0) (midnight dates.1) dto now properties s
      ]
