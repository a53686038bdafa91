-- ===== src/Guests.antt =====
-- apps/api/src/modules/guests and modules/devices: the profile of a guest and its notes, and the
-- tokens of devices.
pub mod Visible
pub mod Devices
use hotelsb2b.Common.{
  ℕ, suc, Bool, true, false, ◌&&◌, ◌||◌, Option, none, some, List, [], ◌∷◌, Text, text_eq, any,
  find, select, update_where, Result, ok, err, or_throw, not_found, internal, ◌>>=◌, ◌==◌,
  if◌then◌else◌,
}
use hotelsb2b.Schema.{Db, Guest, Booking}
use hotelsb2b.Auth.Subject.{AuthUser, staff_user, guest_user}
use hotelsb2b.Auth.Scope.{StaffPropertyAccess}
use hotelsb2b.Auth.Guards.{PropertyScopeSet, in_scope, accessible_properties}

pub record GuestNote : Type 0 where
  pub id : ℕ
  pub guest_id : ℕ
  pub property_id : Option ℕ
  pub author_user_id : Option ℕ
  pub body : Text

pub record Profile : Type 0 where
  pub guest : Guest
  pub bookings : List Booking
  pub notes : List GuestNote

-- A note of no property is for everybody.
unfoldable pub note_in_scope : PropertyScopeSet → Option ℕ → Bool
unfolding in_scope
note_in_scope scope none = true
note_in_scope scope (some id) = in_scope scope id

-- `getProfile`; the tables have the latest row first, as the queries order them.
unfoldable pub get_profile : Db → List GuestNote → ℕ → PropertyScopeSet → Result Profile
unfolding in_scope note_in_scope
get_profile db notes guest_id scope = do
  guest ← or_throw (find (λ g. g.id == guest_id) db.guests) (not_found "Guest not found")
  ok (record {
    guest = guest;
    bookings =
        select (λ b. (b.primary_guest_id == guest_id) && in_scope scope b.property_id) db.bookings;
    notes = select (λ n. (n.guest_id == guest_id) && note_in_scope scope n.property_id) notes;
  })

-- `GuestsController.profile`.
unfoldable pub profile :
    Db → List GuestNote → List StaffPropertyAccess → ℕ → AuthUser → Result Profile
unfolding get_profile
profile db notes grants id user = get_profile db notes id (accessible_properties grants user)

-- `addNote`, with the identifier that the database draws. The property and the author exist, or the
-- foreign keys refuse the row.
unfoldable pub add_note :
    Db → ℕ → Bool → List GuestNote → ℕ → ℕ → ℕ → Text → Result (List GuestNote)
add_note db id keys notes guest_id property_id author_user_id body =
    elim (find (λ (g : Guest). g.id == guest_id) db.guests) [
      | none ↦ err (internal "No Guest found")
      | some _ ↦
          if keys
          then ok (
              record {
                id = id;
                guest_id = guest_id;
                property_id = some property_id;
                author_user_id = some author_user_id;
                body = body;
              }
              ∷ notes)
          else err (internal "Foreign key constraint failed")
    ]

pub data DevicePlatform : Type 0 where
  ios android : DevicePlatform

-- The column `token` is unique.
pub record DeviceToken : Type 0 where
  pub token : Text
  pub platform : DevicePlatform
  pub user_id : Option ℕ
  pub guest_id : Option ℕ

abbrev pub staff_owner : AuthUser → Option ℕ
staff_owner (staff_user id email role) = some id
staff_owner (guest_user id email) = none

abbrev pub guest_owner : AuthUser → Option ℕ
guest_owner (staff_user id email role) = none
guest_owner (guest_user id email) = some id

-- `register`: `upsert` by the token.
unfoldable pub register : AuthUser → Text → DevicePlatform → List DeviceToken → List DeviceToken
register user token platform rows =
    if any (λ d. text_eq d.token token) rows
    then update_where (λ d. text_eq d.token token)
        (λ d. record d {
          user_id = staff_owner user;
          guest_id = guest_owner user;
          platform = platform;
        })
        rows
    else record {
      token = token;
      platform = platform;
      user_id = staff_owner user;
      guest_id = guest_owner user;
    }
      ∷ rows

abbrev pub is_id : Option ℕ → ℕ → Bool
is_id none id = false
is_id (some i) id = i == id

-- `{ userId: user.id }` or `{ guestId: user.id }`.
unfoldable pub is_owned_by : AuthUser → DeviceToken → Bool
is_owned_by (staff_user id email role) d = is_id d.user_id id
is_owned_by (guest_user id email) d = is_id d.guest_id id

-- `unregister`: `deleteMany`.
unfoldable pub unregister : AuthUser → Text → List DeviceToken → List DeviceToken
unfolding is_owned_by
unregister user token rows =
    select (λ d. if text_eq d.token token && is_owned_by user d then false else true) rows

-- `tokensForGuest`.
unfoldable pub tokens_for_guest : ℕ → List DeviceToken → List DeviceToken
tokens_for_guest guest_id rows = select (λ d. is_id d.guest_id guest_id) rows
