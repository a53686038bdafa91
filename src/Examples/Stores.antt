-- ===== src/Examples/Stores.antt =====
-- The theorems on the cache, the lockout and the idempotency keys, at the store in memory.
use hotelsb2b.Common.{
  ℕ, suc, ◌≡◌, refl, false, none, some, [], ◌∷◌, Text, text_eq, Result, ok, err, unprocessable,
  arith,
}
use hotelsb2b.Schema.{Booking}
use hotelsb2b.Availability.Search.{compute_availability}
use hotelsb2b.Redis.{Redis}
use hotelsb2b.Redis.Memory.Lawful.{memory-Laws}
use hotelsb2b.Redis.Memory.{memory}
use hotelsb2b.Cache.{bump_property, search}
use hotelsb2b.Cache.Laws.{IsVersioned, search-bump_property}
use hotelsb2b.Idempotency.{execute}
use hotelsb2b.Idempotency.Laws.{locked, execute-execute}
use hotelsb2b.Examples.{utc, hotel, query, sample_booking}

abbrev empty : Redis.Store memory
empty = λ k. none

empty-IsVersioned : IsVersioned memory memory-Laws empty 1 0
empty-IsVersioned = record { entry = λ t. refl; unused = λ t q k same h. refl }

search-bump_property_example :
    (search memory utc hotel (bump_property memory empty 5 1) 6 query).0
    ≡ compute_availability utc hotel query
search-bump_property_example =
    search-bump_property memory memory-Laws utc hotel empty 0 5 6 query empty-IsVersioned

abbrev id : Text
id = b'a' ∷ []

-- A request that books and counts, one that fails.
abbrev books : Redis.Store memory × ℕ → Result Booking × (Redis.Store memory × ℕ)
books (s, n) = (ok sample_booking, (s, suc n))

abbrev nobody : Redis.Store memory → Redis.Store memory
nobody s = s

abbrev again : ℕ → Redis.Store memory × ℕ
again n = (execute memory {D = ℕ} (some (b'k' ∷ [])) id nobody 10 20 books (empty, n)).1

execute-execute_example :
    (execute memory (some (b'k' ∷ [])) id nobody 1_000 1_010 books (again 0)
      ≡ (ok sample_booking, again 0))
    × (text_eq id [] ≡ false
        → execute memory (some (b'k' ∷ [])) [] nobody 1_000 1_010 books (again 0) ≡ (
          err (unprocessable "Idempotency-Key was already used with a different request payload"),
          again 0,
        ))
execute-execute_example =
    execute-execute memory memory-Laws b'k' [] nobody id [] 10 20 1_000 1_010 books books empty 0
      sample_booking (locked memory (b'k' ∷ []) empty 10, 1) refl refl refl (omega arith)
