-- ===== src/Redis.antt =====
-- The commands of Redis that the code sends, as an interface: Redis is a service that the code
-- relies on. A store answers at a time in milliseconds; a key is one of the shapes that the
-- code builds (`avail-ver:…`, `avail:…`, `idem:…`, `auth:…`, `ai-…`), whose texts are different
-- for different fields; a value is what the code writes, before `JSON.stringify`.
pub mod Memory
use hotelsb2b.Common.{ℕ, suc, ◌+◌, ◌*◌, ◌≤◌, ◌<◌, ◌≡◌, ◌≢◌, Option, none, some, Text, List}
use hotelsb2b.Schema.{Booking}
use hotelsb2b.Availability.Search.{AvailabilityQuery, RoomTypeAvailability}

pub data Key : Type 0 where
  -- `avail-ver:${propertyId}`.
  avail_ver : ℕ → Key
  -- `avail:${propertyId}:v${version}:${checkIn}:${checkOut}:${adults}:${children}`.
  avail : AvailabilityQuery → ℕ → Key
  -- `idem:res:${key}` and `idem:lock:${key}`.
  idem_res idem_lock : Text → Key
  -- `auth:fail:${id}` and `auth:lock:${id}`.
  auth_fail auth_lock : Text → Key
  -- `ai-otp-req:${bookingId}` and `ai-nonce:${signature}`.
  ai_otp_req : ℕ → Key
  ai_nonce : Text → Key

pub data Value : Type 0 where
  number : ℕ → Value
  listing : List RoomTypeAvailability → Value
  stored : Text → Booking → Value

-- GET, SET (with EX where a time to live is given), DEL, INCR, EXPIRE and TTL.
pub record Redis : Type 1 where
  pub Store : Type 0
  pub get : Store → ℕ → Key → Option Value
  pub set : Store → ℕ → Key → Value → Option ℕ → Store
  pub del : Store → Key → Store
  pub incr : Store → ℕ → Key → ℕ × Store
  pub expire : Store → ℕ → Key → ℕ → Store
  pub ttl : Store → ℕ → Key → ℕ

module _ (r : Redis) where
  open r use {Store, get, set, del, incr, expire, ttl}

  -- What the code relies on.
  pub record Laws : Type 0 where
    -- An entry is read back until its time has come, and no more once it has passed; at that
    -- millisecond itself it may or may not be there.
    pub get-set_self :
        (s : Store) (now later : ℕ) (k : Key) (v : Value) (seconds : ℕ)
        → later < now + 1000 * seconds
        → get (set s now k v (some seconds)) later k ≡ some v
    pub get-set_over :
        (s : Store) (now later : ℕ) (k : Key) (v : Value) (seconds : ℕ)
        → now + 1000 * seconds < later
        → get (set s now k v (some seconds)) later k ≡ none
    pub get-set_ne :
        (s : Store) (now later : ℕ) (k j : Key) (v : Value) (t : Option ℕ)
        → k ≢ j
        → get (set s now k v t) later j ≡ get s later j
    pub get-del_self : (s : Store) (later : ℕ) (k : Key) → get (del s k) later k ≡ none
    pub get-del_ne :
        (s : Store) (later : ℕ) (k j : Key) → k ≢ j → get (del s k) later j ≡ get s later j
    -- INCR counts from 0 where there is no entry, and makes one with no expiry.
    pub incr_none :
        (s : Store) (now later : ℕ) (k : Key)
        → get s now k ≡ none
        → ((incr s now k).0 ≡ 1) × (get (incr s now k).1 later k ≡ some (number 1))
    -- It keeps the expiry of an entry that there is.
    pub incr_some :
        (s : Store) (now : ℕ) (k : Key) (n : ℕ)
        → get s now k ≡ some (number n)
        → ((incr s now k).0 ≡ suc n)
          × ((later : ℕ)
              → get s later k ≡ some (number n)
              → get (incr s now k).1 later k ≡ some (number (suc n)))
          × ((later : ℕ) → get s later k ≡ none → get (incr s now k).1 later k ≡ none)
    pub get-incr_ne :
        (s : Store) (now later : ℕ) (k j : Key)
        → k ≢ j
        → get (incr s now k).1 later j ≡ get s later j
    -- EXPIRE sets the time to live of an entry that there is.
    pub get-expire_self :
        (s : Store) (now later : ℕ) (k : Key) (seconds : ℕ)
        → now ≤ later
        → later < now + 1000 * seconds
        → get (expire s now k seconds) later k ≡ get s now k
    pub get-expire_over :
        (s : Store) (now later : ℕ) (k : Key) (seconds : ℕ)
        → now + 1000 * seconds < later
        → get (expire s now k seconds) later k ≡ none
    pub get-expire_ne :
        (s : Store) (now later : ℕ) (k j : Key) (seconds : ℕ)
        → k ≢ j
        → get (expire s now k seconds) later j ≡ get s later j
    -- TTL is in seconds, and positive while an entry has a second to live; 0 stands for the negative
    -- replies.
    pub ttl_none : (s : Store) (now : ℕ) (k : Key) → get s now k ≡ none → ttl s now k ≡ 0
    pub ttl-set :
        (s : Store) (now later : ℕ) (k : Key) (v : Value) (seconds : ℕ)
        → now ≤ later
        → later + 1000 ≤ now + 1000 * seconds
        → 0 < ttl (set s now k v (some seconds)) later k
    pub ttl-ne-set :
        (s : Store) (now later : ℕ) (k j : Key) (v : Value) (t : Option ℕ)
        → k ≢ j
        → ttl (set s now k v t) later j ≡ ttl s later j
    pub ttl-del_ne :
        (s : Store) (later : ℕ) (k j : Key) → k ≢ j → ttl (del s k) later j ≡ ttl s later j

-- `SET key value EX seconds NX`: writes where there is no entry, and says whether it did.
unfoldable pub set_nx : (r : Redis) → r.Store → ℕ → Key → Value → ℕ → Option (r.Store)
set_nx r s now k v seconds = elim (r.get s now k) [
  | none ↦ some (r.set s now k v (some seconds))
  | some _ ↦ none
]
