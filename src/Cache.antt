-- ===== src/Cache.antt =====
-- apps/api/src/cache/cache.service.ts, and `search` of availability.service.ts, which reads
-- through it.
pub mod Laws
use hotelsb2b.Common.{ℕ, Option, none, some, List, Result, ok, err}
use hotelsb2b.Schema.{Db}
use hotelsb2b.Availability.Search.{AvailabilityQuery, RoomTypeAvailability, compute_availability}
use hotelsb2b.Redis.{Redis, Key, avail_ver, avail, Value, number, listing}

-- `AVAILABILITY_TTL_SECONDS`.
abbrev pub availability_ttl_seconds : ℕ
availability_ttl_seconds = 120

-- `Number(value ?? 0)`.
abbrev pub number_or_zero : Option Value → ℕ
number_or_zero (some (number n)) = n
number_or_zero _ = 0

-- `raw ? JSON.parse(raw) : null`.
abbrev pub as_listing : Option Value → Option (List RoomTypeAvailability)
as_listing (some (listing os)) = some os
as_listing _ = none

module _ (r : Redis) where
  open r use {Store, get, set, incr}

  unfoldable pub property_version : Store → ℕ → ℕ → ℕ
  property_version s now property_id = number_or_zero (get s now (avail_ver property_id))

  unfoldable pub bump_property : Store → ℕ → ℕ → Store
  bump_property s now property_id = (incr s now (avail_ver property_id)).1

  unfoldable pub get_json : Store → ℕ → Key → Option (List RoomTypeAvailability)
  get_json s now key = as_listing (get s now key)

  unfoldable pub set_json : Store → ℕ → Key → List RoomTypeAvailability → ℕ → Store
  set_json s now key value ttl_seconds = set s now key (listing value) (some ttl_seconds)

  -- `AvailabilityService.search`. The rows are read where the cache has no entry.
  unfoldable pub search :
      (ℕ → ℕ) → Db → Store → ℕ → AvailabilityQuery → Result (List RoomTypeAvailability) × Store
  search local_time db s now q =
      let version = property_version s now q.property_id in
      let key = avail q version in
      elim (get_json s now key) [
        | some cached ↦ (ok cached, s)
        | none ↦ elim (compute_availability local_time db q) [
          | ok result ↦ (ok result, set_json s now key result availability_ttl_seconds)
          | err e ↦ (err e, s)
        ]
      ]
