-- ===== src/Properties.antt =====
-- apps/api/src/modules/properties/properties.service.ts. The collation of names is a parameter.
-- The bodies have passed the validation of their classes. Images and amenities are left out.
pub mod Destinations
pub mod Published
use hotelsb2b.Common.{
  ℕ, suc, Bool, true, false, not, ◌&&◌, Option, none, some, List, [], ◌∷◌, map, Text, text_eq,
  to_upper, trim, take, any, find, select, update_where, Result, ok, err, or_throw, guard,
  not_found, internal, ◌>>=◌, ◌>>◌, ◌==◌, if◌then◌else◌,
}
use hotelsb2b.Schema.{Db, Property, RoomType, RatePlan}
use hotelsb2b.Dates.{midnight}
use hotelsb2b.Schemas.{text_ltb}
use hotelsb2b.Redis.{Redis}
use hotelsb2b.Availability.Search.{AvailabilityQuery, RoomTypeAvailability}
use hotelsb2b.Cache
use hotelsb2b.RatePlans.{given, find_published_by_room_type}

pub record CreatePropertyDto : Type 0 where
  pub slug : Text
  pub name : Text
  pub description : Option Text
  pub timezone : Text
  pub currency : Text
  pub city : Option Text
  pub country_code : Option Text

pub record UpdatePropertyDto : Type 0 where
  pub name : Option Text
  pub description : Option Text
  pub timezone : Option Text
  pub currency : Option Text
  pub city : Option Text
  pub country_code : Option Text
  pub active : Option Bool

-- A room type of a property page, with its plans.
pub record RoomTypeContent : Type 0 where
  pub room_type : RoomType
  pub rate_plans : List RatePlan

pub record PropertyContent : Type 0 where
  pub property : Property
  pub room_types : List RoomTypeContent

unfoldable pub find_published_one : Db → ℕ → Result Property
find_published_one db id =
    or_throw (find (λ p. (p.id == id) && p.active) db.properties) (not_found "Property not found")

unfoldable pub content_of : Db → Property → PropertyContent
content_of db p = record {
  property = p;
  room_types =
      map
        (λ (t : RoomType). record {
          room_type = t;
          rate_plans = find_published_by_room_type db t.id;
        })
        (select (λ (t : RoomType). (t.property_id == p.id) && t.active) db.room_types);
}

unfoldable pub find_published_by_slug : Db → Text → Result PropertyContent
unfolding content_of
find_published_by_slug db slug = do
  p ←
      or_throw (find (λ p. text_eq p.slug slug && p.active) db.properties)
        (not_found "Property not found")
  ok (content_of db p)

-- `create`. The column `slug` is unique.
unfoldable pub create_property : Db → CreatePropertyDto → Result Db
create_property db dto = do
  guard (not (any (λ (p : Property). text_eq p.slug dto.slug) db.properties))
      (internal "Unique constraint failed")
  ok (record db {
    properties =
        record {
          id = db.next_id;
          slug = dto.slug;
          name = dto.name;
          description = dto.description;
          timezone = dto.timezone;
          city = dto.city;
          country_code = dto.country_code;
          currency = to_upper dto.currency;
          active = true;
        }
        ∷ db.properties;
    next_id = suc db.next_id;
  })

abbrev pub given_text : Option Text → Option Text → Option Text
given_text none old = old
given_text (some new) old = some new

-- `dto.currency ? … : {}`; an empty currency does not pass the validation.
abbrev pub upper_currency : Option Text → Text → Text
upper_currency none old = old
upper_currency (some c) old = to_upper c

unfoldable pub with_property_update : UpdatePropertyDto → Property → Property
with_property_update dto p = record p {
  name = given dto.name p.name;
  description = given_text dto.description p.description;
  timezone = given dto.timezone p.timezone;
  currency = upper_currency dto.currency p.currency;
  city = given_text dto.city p.city;
  country_code = given_text dto.country_code p.country_code;
  active = given dto.active p.active;
}

unfoldable pub get_or_throw : Db → ℕ → Result Property
get_or_throw db id =
    or_throw (find (λ p. p.id == id) db.properties) (not_found "Property not found")

unfoldable pub update_property : Db → ℕ → UpdatePropertyDto → Result Db
unfolding get_or_throw with_property_update
update_property db id dto = do
  _ ← get_or_throw db id
  ok (record db {
    properties =
        update_where (λ (p : Property). p.id == id) (with_property_update dto) db.properties;
  })

module _ (precedes : Text → Text → Bool) where
  -- `orderBy: { name: 'asc' }`.
  unfoldable pub insert_by_name : Property → List Property → List Property
  insert_by_name p [] = p ∷ []
  insert_by_name p (q ∷ qs) = if precedes q.name p.name then q ∷ insert_by_name p qs else p ∷ q ∷ qs

  unfoldable pub sort_by_name : List Property → List Property
  unfolding insert_by_name
  sort_by_name [] = []
  sort_by_name (p ∷ ps) = insert_by_name p (sort_by_name ps)

  unfoldable pub find_published : Db → List Property
  unfolding sort_by_name
  find_published db = sort_by_name (select (λ (p : Property). p.active) db.properties)
