-- ===== src/Payment/Rows.antt =====
-- The tables of app/database/model.py that a payment touches, and Python's datetimes.
use iot_server.Prelude.{
  ℕ, ◌+◌, ◌*◌, String, Bool, Option, none, some, List, [], ◌∷◌, str_eq, ltb, if◌then◌else◌,
}
use iot_server.Http.{Result, ok, err, python}

-- A datetime in seconds, with the time zone UTC or without one.
pub data Datetime : Type 0 where
  aware : ℕ → Datetime
  naive : ℕ → Datetime

unfoldable pub seconds : Datetime → ℕ
seconds (aware n) = n
seconds (naive n) = n

-- `a > b`: Python raises a TypeError for one datetime with and one without a time zone.
unfoldable pub later : Datetime → Datetime → Result Bool
later (aware a) (aware b) = ok (ltb b a)
later (naive a) (naive b) = ok (ltb b a)
later (aware a) (naive b) = err (python "TypeError")
later (naive a) (aware b) = err (python "TypeError")

unfoldable pub plus_days : Datetime → ℕ → Datetime
plus_days (aware a) days = aware (a + days * 86400)
plus_days (naive a) days = naive (a + days * 86400)

-- `expires.replace(tzinfo=timezone.utc)` of a datetime without a time zone.
unfoldable pub as_utc : Datetime → Datetime
as_utc (aware a) = aware a
as_utc (naive a) = aware a

-- What a column without a time zone keeps of a datetime.
unfoldable pub without_zone : Datetime → Datetime
without_zone (aware a) = naive a
without_zone (naive a) = naive a

-- `cost` is a decimal, as its text; the column may be NULL.
pub record SubscriptionType : Type 0 where
  pub id : String
  pub type : String
  pub cost : Option String

pub record UserService : Type 0 where
  pub id : String
  pub user_id : String
  pub service_id : String
  pub is_active : Bool

pub record Payment : Type 0 where
  pub id : String
  pub user_service_id : String
  pub subscription_type_id : String
  pub expires_at : Datetime

pub record PaymentHistory : Type 0 where
  pub id : String
  pub payment_id : String
  pub deposit_id : String
  -- a decimal, as its text
  pub amount : String
  pub period_start : Datetime
  pub period_end : Datetime

pub record Tables : Type 0 where
  pub subscription_types : List SubscriptionType
  pub user_services : List UserService
  pub payments : List Payment
  pub histories : List PaymentHistory
  pub users : List String
  pub services : List String

unfoldable pub get_user_service : String → List UserService → Option UserService
get_user_service id [] = none
get_user_service id (u ∷ us) = if str_eq u.id id then some u else get_user_service id us

unfoldable pub get_subscription_type : String → List SubscriptionType → Option SubscriptionType
get_subscription_type id [] = none
get_subscription_type id (t ∷ ts) = if str_eq t.id id then some t else get_subscription_type id ts

-- The later of a payment and the best one of the rest.
unfoldable pub best : Payment → Option Payment → Option Payment
unfolding seconds
best p none = some p
best p (some q) = if ltb (seconds p.expires_at) (seconds q.expires_at) then some q else some p

-- `select(Payment).where(user_service_id == id).order_by(expires_at.desc())`, its first row.
unfoldable pub last_payment : String → List Payment → Option Payment
unfolding best
last_payment id [] = none
last_payment id (p ∷ ps) =
    let rest = last_payment id ps in if str_eq p.user_service_id id then best p rest else rest

abbrev pub set_active : Bool → UserService → UserService
set_active b u = record { id = u.id; user_id = u.user_id; service_id = u.service_id; is_active = b }

-- The rows with `is_active` of one of them written.
unfoldable pub with_active : String → Bool → List UserService → List UserService
with_active id b [] = []
with_active id b (u ∷ us) =
    let rest = with_active id b us in if str_eq u.id id then set_active b u ∷ rest else u ∷ rest
