-- ===== src/Examples/Catalogue.antt =====
-- The theorems on rate plans, properties and guests.
use hotelsb2b.Common.{
  ◌&&◌, ◌≡◌, ◌↔◌, refl, true, false, none, some, List, [], ◌∷◌, text_eq, to_upper, units, ok, find,
  any, select, Memᴰ, ◌==◌,
}
use hotelsb2b.Schema.{front_desk, Db, RoomType, Property, refundable}
use hotelsb2b.Auth.Subject.{staff_user}
use hotelsb2b.Auth.Guards.{accessible_properties, in_scope}
use hotelsb2b.Auth.Scope.{StaffPropertyAccess, booking, may_act}
use hotelsb2b.Bookings.Create.{fits_int}
use hotelsb2b.RatePlans.{CreateRatePlanDto, plan_row, create}
use hotelsb2b.RatePlans.Ownership.{
  PlansAreOwned, none_yet, then_one, by_create, Changes-PlansAreOwned,
}
use hotelsb2b.RatePlans.Currency.{IsUnbookable, with_plan, create-IsUnbookable}
use hotelsb2b.Guests.{Profile, profile}
use hotelsb2b.Guests.Visible.{target_of, profile-may_act}
use hotelsb2b.Examples.{hotel, double, suite, sample_booking}

abbrev plan_form : CreateRatePlanDto
plan_form = record {
  property_id = 1;
  room_type_id = 11;
  name = units "E";
  cancellation_policy = refundable;
  min_stay_nights = 1;
  base_price_minor = 9_000;
  currency = units "eur";
}

abbrev with_euro : Db
with_euro = record hotel { rate_plans = plan_row 100 plan_form ∷ hotel.rate_plans; next_id = 101 }

created : create hotel plan_form ≡ ok (with_euro, 1)
unfolding create find fits_int
created = refl

hotel-PlansAreOwned : PlansAreOwned hotel
hotel-PlansAreOwned p (Memᴰ.head e) = rw e (double, Memᴰ.head refl, refl, refl)
hotel-PlansAreOwned p (Memᴰ.tail (Memᴰ.head e)) =
    rw e (suite, Memᴰ.tail (Memᴰ.head refl), refl, refl)
hotel-PlansAreOwned p (Memᴰ.tail (Memᴰ.tail m)) = elim m [ ]

Changes-PlansAreOwned_example : PlansAreOwned with_euro
Changes-PlansAreOwned_example =
    Changes-PlansAreOwned {db = hotel} {db' = with_euro} hotel-PlansAreOwned
      (then_one none_yet (by_create plan_form 1 created))

found :
    (p : Property) × (find (λ (p : Property). p.id == 1) hotel.properties ≡ some p)
    × (text_eq (to_upper (units "eur")) p.currency ≡ false)
unfolding find to_upper text_eq
found = (_, refl, refl)

in_hotel :
    find (λ (t : RoomType). (t.id == 11) && (t.property_id == 1)) hotel.room_types ≡ some double
unfolding find
in_hotel = refl

small : (fits_int 1 && fits_int 9_000) ≡ true
unfolding fits_int
small = refl

create-IsUnbookable_example :
    (create hotel plan_form ≡ ok (with_plan hotel plan_form, 1))
    × IsUnbookable (with_plan hotel plan_form) (plan_row 100 plan_form)
create-IsUnbookable_example =
    create-IsUnbookable hotel plan_form double found.0 in_hotel small found.1 found.2

-- A guest with a booking at the hotel.
abbrev seen : Db
seen = record hotel {
  guests =
      record {
        id = 1;
        first_name = [];
        last_name = [];
        email = none;
        phone = none;
        is_account = false;
        password_hash = none;
      }
      ∷ [];
  bookings = sample_booking ∷ [];
}

abbrev grants : List StaffPropertyAccess
grants = record { user_id = 4; property_id = 1 } ∷ []

abbrev shown : Profile
shown = record {
  guest = record {
    id = 1;
    first_name = [];
    last_name = [];
    email = none;
    phone = none;
    is_account = false;
    password_hash = none;
  };
  bookings = sample_booking ∷ [];
  notes = [];
}

did_show : profile seen [] grants 1 (staff_user 4 [] front_desk) ≡ ok shown
unfolding profile find select accessible_properties in_scope any
did_show = refl

profile-may_act_example : Memᴰ sample_booking shown.bookings ↔ (
    Memᴰ sample_booking seen.bookings
    × ((sample_booking.primary_guest_id == 1) ≡ true)
    × (may_act grants (staff_user 4 [] front_desk) booking (target_of sample_booking) ≡ ok tt))
profile-may_act_example =
    profile-may_act seen [] grants 1 4 [] front_desk shown sample_booking did_show
