-- ===== src/Payment/Service.antt =====
-- `PaymentService` of app/domain/payment/service.py. One clock value serves a call, and the ids of new
-- rows are arguments.
use iot_server.Prelude.{
  ℕ, String, Bool, true, false, Option, none, some, List, [], ◌∷◌, str_eq, ltb, ◌&&◌, if◌then◌else◌,
}
use iot_server.Http.{Exec, Result, ok, err, Exception, http, bad_request}
use iot_server.Payment.Rows.{
  Datetime, aware, later, plus_days, as_utc, SubscriptionType, UserService, Payment, PaymentHistory,
  Tables, get_user_service, get_subscription_type, last_payment, with_active, seconds,
}

pub record PaymentCreate : Type 0 where
  pub user_service_id : String
  pub subscription_type_id : String
  pub deposit_id : String
  pub amount : String

-- BILLING_PERIODS
unfoldable pub billing_period : String → Option ℕ
billing_period name =
    if str_eq name "mensual"
    then some 30
    else (if str_eq name "bimestral"
        then some 60
        else (if str_eq name "anual" then some 365 else none))

abbrev pub no_period : Exception
no_period = bad_request "Tipo de suscripción sin periodo definido"

unfoldable pub expires_of : Option Payment → Option Datetime
expires_of none = none
expires_of (some p) = some p.expires_at

-- `current_expires and current_expires > now`
unfoldable pub is_running : Option Datetime → ℕ → Result Bool
unfolding later
is_running none now = ok false
is_running (some d) now = later d (aware now)

-- The start of the new period: the running expiry, or now.
unfoldable pub base : Option Datetime → ℕ → Bool → Datetime
base none now running = aware now
base (some d) now running = if running then d else aware now

unfoldable pub extend : Option Datetime → ℕ → ℕ → Result Bool → Result Datetime
unfolding base plus_days
extend current now days (err e) = err e
extend current now days (ok running) = ok (plus_days (base current now running) days)

unfoldable pub calculate : Option Datetime → ℕ → Option ℕ → Result Datetime
unfolding extend is_running
calculate current now none = err no_period
calculate current now (some days) = extend current now days (is_running current now)

unfoldable pub calculate_expires_at :
    (String → String) → SubscriptionType → Option Datetime → ℕ → Result Datetime
unfolding calculate
calculate_expires_at lower t current now = calculate current now (billing_period (lower t.type))

-- `store_datetime` and `store_amount` are what the columns keep of a datetime and of an amount.
module _ (lower : String → String) (store_datetime : Datetime → Datetime)
    (store_amount : String → String) (now : ℕ) (payment_id history_id : String) where
  -- The rows of a payment, as the database keeps them.
  unfoldable pub insert : PaymentCreate → UserService → Datetime → Datetime → Exec Tables Payment
  unfolding with_active
  insert payload u expires_at period_start db =
      let payment : Payment = record {
        id = payment_id;
        user_service_id = payload.user_service_id;
        subscription_type_id = payload.subscription_type_id;
        expires_at = store_datetime expires_at;
      } in
      let history : PaymentHistory = record {
        id = history_id;
        payment_id = payment_id;
        deposit_id = payload.deposit_id;
        amount = store_amount payload.amount;
        period_start = store_datetime period_start;
        period_end = store_datetime expires_at;
      } in
      (
        ok payment,
        record {
          subscription_types = db.subscription_types;
          user_services = with_active u.id true db.user_services;
          payments = payment ∷ db.payments;
          histories = history ∷ db.histories;
          users = db.users;
          services = db.services;
        },
      )

  -- After the expiry is known, `period_start` compares the same two datetimes again.
  unfoldable pub record_payment :
      PaymentCreate
      → UserService
      → Option Datetime
      → Result Datetime
      → Result Bool
      → Exec Tables Payment
  unfolding insert base
  record_payment payload u current (err e) running db = (err e, db)
  record_payment payload u current (ok expires_at) (err e) db = (err e, db)
  record_payment payload u current (ok expires_at) (ok running) db =
      insert payload u expires_at (base current now running) db

  unfoldable pub pay :
      PaymentCreate
      → Option UserService
      → Option SubscriptionType
      → Option Datetime
      → Exec Tables Payment
  unfolding record_payment
  pay payload none t current db = (err (http 404 "UserService not found"), db)
  pay payload (some u) none current db = (err (http 404 "SubscriptionType not found"), db)
  pay payload (some u) (some t) current db =
      record_payment payload u current (calculate_expires_at lower t current now)
        (is_running current now) db

  unfoldable pub create_entity : PaymentCreate → Exec Tables Payment
  unfolding pay expires_of
  create_entity payload db =
      pay payload (get_user_service payload.user_service_id db.user_services)
        (get_subscription_type payload.subscription_type_id db.subscription_types)
        (expires_of (last_payment payload.user_service_id db.payments)) db

unfoldable pub deactivate : String → Tables → Tables
deactivate id db = record {
  subscription_types = db.subscription_types;
  user_services = with_active id false db.user_services;
  payments = db.payments;
  histories = db.histories;
  users = db.users;
  services = db.services;
}

-- `expires < now`, both with a time zone by then.
unfoldable pub is_expired : Option Payment → ℕ → Bool
is_expired none now = false
is_expired (some p) now = ltb (seconds (as_utc p.expires_at)) now

unfoldable pub is_serving : Option UserService → Bool
is_serving none = false
is_serving (some u) = u.is_active

unfoldable pub check_and_update_expired : ℕ → String → Tables → Tables
unfolding is_expired is_serving deactivate
check_and_update_expired now id db =
    if is_expired (last_payment id db.payments) now
      && is_serving (get_user_service id db.user_services)
    then deactivate id db
    else db

unfoldable pub check_all : ℕ → List UserService → Tables → Tables
check_all now [] db = db
check_all now (u ∷ us) db = check_all now us (check_and_update_expired now u.id db)

unfoldable pub of_user : String → List UserService → List UserService
of_user id [] = []
of_user id (u ∷ us) = let rest = of_user id us in if str_eq u.user_id id then u ∷ rest else rest

unfoldable pub of_service : String → List UserService → List UserService
of_service id [] = []
of_service id (u ∷ us) =
    let rest = of_service id us in if str_eq u.service_id id then u ∷ rest else rest

unfoldable pub check_all_user_subscriptions : ℕ → String → Tables → Tables
check_all_user_subscriptions now user_id db = check_all now (of_user user_id db.user_services) db

unfoldable pub check_all_service_subscriptions : ℕ → String → Tables → Tables
check_all_service_subscriptions now service_id db =
    check_all now (of_service service_id db.user_services) db
