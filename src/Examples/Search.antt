-- ===== src/Examples/Search.antt =====
-- The theorems on the search at the sample hotel.
use hotelsb2b.Common.{◌≡◌, refl, true, List, [], ◌∷◌, Memᴰ, ok, any, select, find}
use hotelsb2b.Schema.{RoomType}
use hotelsb2b.RateRules.{rule_applies_on}
use hotelsb2b.Availability.Nights.{nights}
use hotelsb2b.Availability.Pricing.{price_stay, night_price, applies, total_price, sort_by_priority}
use hotelsb2b.Availability.Inventory.{count_available_rooms, is_free}
use hotelsb2b.Availability.Search.{
  RoomTypeAvailability, suits, active_plans, priced_plans, offer_of, offers, compute_availability,
}
use hotelsb2b.Availability.Search.Laws.{IsOffer, compute_availability_sound}
use hotelsb2b.Availability.Search.Complete.{MustList, compute_availability_complete}
use hotelsb2b.Examples.{query, utc, hotel, flexible}

-- Two doubles at 250.00 for the stay.
abbrev doubles : RoomTypeAvailability
doubles = record {
  room_type_id = 11;
  room_type_name = b'D' ∷ [];
  available_rooms = 2;
  rate_plans =
      record {
        rate_plan_id = 31;
        name = b'F' ∷ [];
        price_minor = 25_000;
        currency = flexible.currency;
      }
      ∷ [];
}

abbrev suites : RoomTypeAvailability
suites = record {
  room_type_id = 12;
  room_type_name = b'S' ∷ [];
  available_rooms = 1;
  rate_plans =
      record {
        rate_plan_id = 32;
        name = b'F' ∷ [];
        price_minor = 20_000;
        currency = flexible.currency;
      }
      ∷ [];
}

listing : compute_availability utc hotel query ≡ ok (doubles ∷ suites ∷ [])
unfolding compute_availability suits active_plans count_available_rooms is_free price_stay
    night_price applies rule_applies_on nights offers select any priced_plans find offer_of
    total_price sort_by_priority
listing = refl

compute_availability_sound_example : IsOffer utc hotel query doubles
compute_availability_sound_example =
    compute_availability_sound utc hotel query (doubles ∷ suites ∷ []) listing doubles
      (Memᴰ.head refl)

compute_availability_complete_example :
    (os : List RoomTypeAvailability) × (compute_availability utc hotel query ≡ ok os)
    × ((rt : RoomType)
        → Memᴰ rt hotel.room_types
        → suits query rt ≡ true
        → MustList utc hotel query rt
        → (o : RoomTypeAvailability) × Memᴰ o os × (o.room_type_id ≡ rt.id))
compute_availability_complete_example = compute_availability_complete utc hotel query
