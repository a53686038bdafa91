-- ===== src/Schema.antt =====
-- apps/api/prisma/schema.prisma: the tables and the columns that the booking code reads or
-- writes. A table is the list of its rows, the latest first. Identifiers (UUIDs) are numbers that
-- the database draws from `next_id`; money is in minor units; an instant is its number of
-- milliseconds since the start of year 0.
use hotelsb2b.Common.{ℕ, Bool, true, false, Option, List, Text, ◌==◌}

pub data BookingStatus : Type 0 where
  pending_payment confirmed checked_in checked_out cancelled no_show : BookingStatus

pub data RoomStatus : Type 0 where
  clean dirty inspected out_of_service : RoomStatus

pub data CancellationPolicy : Type 0 where
  refundable non_refundable : CancellationPolicy

pub data Channel : Type 0 where
  web staff ai_chat ai_voice ai_phone : Channel

pub data NotificationType : Type 0 where
  booking_received booking_confirmed booking_modified booking_cancelled : NotificationType
  checkin_reminder post_stay payment_receipt refund_issued : NotificationType

pub data NotificationStatus : Type 0 where
  pending sent failed : NotificationStatus

pub data StaffRole : Type 0 where
  front_desk manager finance housekeeping admin : StaffRole

-- A signed column (`RateRule.priority`): `negsuc n` is -(n + 1).
pub data ℤ : Type 0 where
  pos : ℕ → ℤ
  negsuc : ℕ → ℤ

pub record Property : Type 0 where
  pub id : ℕ
  pub slug : Text
  pub name : Text
  pub description : Option Text
  pub timezone : Text
  pub city : Option Text
  pub country_code : Option Text
  pub currency : Text
  pub active : Bool

pub record RoomType : Type 0 where
  pub id : ℕ
  pub property_id : ℕ
  pub name : Text
  pub max_adults : ℕ
  pub max_children : ℕ
  pub active : Bool

pub record Room : Type 0 where
  pub id : ℕ
  pub property_id : ℕ
  pub room_type_id : ℕ
  pub number : Text
  pub status : RoomStatus
  pub active : Bool

pub record RoomBlock : Type 0 where
  pub id : ℕ
  pub property_id : ℕ
  pub room_id : ℕ
  pub start_date : ℕ
  pub end_date : ℕ
  pub reason : Text
  pub created_by_user_id : Option ℕ

pub record RateRule : Type 0 where
  pub start_date : ℕ
  pub end_date : ℕ
  pub days_of_week : ℕ
  pub price_minor : ℕ
  pub priority : ℤ

-- With its rules, as `include: { rules: true }` reads it.
pub record RatePlan : Type 0 where
  pub id : ℕ
  pub property_id : ℕ
  pub room_type_id : ℕ
  pub name : Text
  pub cancellation_policy : CancellationPolicy
  pub refundable_until_hrs : Option ℕ
  pub min_stay_nights : ℕ
  pub base_price_minor : ℕ
  pub currency : Text
  pub active : Bool
  pub rules : List RateRule

pub record Guest : Type 0 where
  pub id : ℕ
  pub first_name : Text
  pub last_name : Text
  pub email : Option Text
  pub phone : Option Text
  pub is_account : Bool
  pub password_hash : Option Text

pub record Booking : Type 0 where
  pub id : ℕ
  pub confirmation_code : Text
  pub property_id : ℕ
  pub status : BookingStatus
  pub channel : Channel
  pub primary_guest_id : ℕ
  pub created_by_user_id : Option ℕ
  pub check_in : ℕ
  pub check_out : ℕ
  pub adults : ℕ
  pub children : ℕ
  pub rooms_count : ℕ
  pub currency : Text
  pub subtotal_minor : ℕ
  pub total_minor : ℕ
  pub special_requests : Option Text
  pub cancelled_at : Option ℕ
  pub cancel_reason : Option Text

pub record BookingRoom : Type 0 where
  pub id : ℕ
  pub booking_id : ℕ
  pub property_id : ℕ
  pub room_type_id : ℕ
  pub rate_plan_id : ℕ
  pub room_id : Option ℕ
  pub check_in : ℕ
  pub check_out : ℕ
  pub adults : ℕ
  pub children : ℕ
  pub price_minor : ℕ
  pub currency : Text

pub record BookingOccupant : Type 0 where
  pub booking_id : ℕ
  pub first_name : Text
  pub last_name : Text
  pub is_primary : Bool

pub record Notification : Type 0 where
  pub id : ℕ
  pub booking_id : Option ℕ
  pub property_id : Option ℕ
  pub type : NotificationType
  pub status : NotificationStatus
  pub to_address : Option Text
  pub sent_at : Option ℕ
  pub created_at : ℕ

pub record Db : Type 0 where
  pub next_id : ℕ
  pub properties : List Property
  pub room_types : List RoomType
  pub rooms : List Room
  pub room_blocks : List RoomBlock
  pub rate_plans : List RatePlan
  pub guests : List Guest
  pub bookings : List Booking
  pub booking_rooms : List BookingRoom
  pub occupants : List BookingOccupant
  pub notifications : List Notification

abbrev ordinal : BookingStatus → ℕ
ordinal pending_payment = 0
ordinal confirmed = 1
ordinal checked_in = 2
ordinal checked_out = 3
ordinal cancelled = 4
ordinal no_show = 5

-- `a === b` on statuses.
abbrev pub status_eq : BookingStatus → BookingStatus → Bool
status_eq a b = ordinal a == ordinal b

abbrev pub is_out_of_service : RoomStatus → Bool
is_out_of_service out_of_service = true
is_out_of_service _ = false
