-- ===== src/Payment/Deposits.antt =====
-- The history of a payment that `create_entity` of app/domain/payment/service.py has made, as the route of
-- app/domain/payment/controller.py lists it.
use mathlib.Core.Path.{subst}
use mathlib.Core.List.{Memᴰ}
use iot_server.Prelude.{ℕ, ◌≡◌, refl, String, Bool, Option, none, some, List, ◌∷◌, eq_refl}
use iot_server.Http.{Result, ok, err}
use iot_server.Payment.Rows.{
  Datetime, SubscriptionType, UserService, Payment, PaymentHistory, Tables, get_user_service,
  get_subscription_type, last_payment,
}
use iot_server.Payment.Service.{
  PaymentCreate, base, calculate_expires_at, is_running, expires_of, insert, record_payment, pay,
  create_entity,
}
use iot_server.Payment.Catalog.{get_payment, histories_of, history_of, list_payment_history}

-- `arrange` keeps the rows that it puts in order.
module _ (lower : String → String) (store_datetime : Datetime → Datetime)
    (store_amount : String → String) (now : ℕ) (payment_id history_id : String)
    (payload : PaymentCreate) (db : Tables) (arrange : List PaymentHistory → List PaymentHistory)
    (keeps : (h : PaymentHistory) (hs : List PaymentHistory)
      → Memᴰ h hs
      → Memᴰ h (arrange hs)) where
  -- What the history of a new payment lists: an entry for it, and the entries that its id had before.
  pub record IsRecorded (p : Payment) (db' : Tables) : Type 0 where
    pub entry : PaymentHistory
    pub entries : List PaymentHistory
    pub listed : list_payment_history arrange p.id db' ≡ (ok entries, db')
    pub among : Memᴰ entry entries
    pub others : entries ≡ arrange (entry ∷ histories_of p.id db.histories)
    pub deposit : entry.deposit_id ≡ payload.deposit_id
    pub amount : entry.amount ≡ store_amount payload.amount
    pub end : entry.period_end ≡ p.expires_at

  answered-IsRecorded :
      {a p : Payment} {b d : Tables}
      → ◌≡◌ {A = Result Payment × Tables} (ok a, b) (ok p, d)
      → IsRecorded a b
      → IsRecorded p d
  answered-IsRecorded {a} {p} {b} {d} h r =
      let e : a ≡ p = cc in
      let f : b ≡ d = cc in subst (λ x. IsRecorded x d) e (subst (λ y. IsRecorded a y) f r)

  insert-IsRecorded :
      (u : UserService) (e start : Datetime) {p : Payment} {db' : Tables}
      → insert lower store_datetime store_amount now payment_id history_id payload u e start db
        ≡ (ok p, db')
      → IsRecorded p db'
  unfolding insert list_payment_history get_payment history_of histories_of
  insert-IsRecorded u e start h =
      let entry : PaymentHistory = record {
        id = history_id;
        payment_id = payment_id;
        deposit_id = payload.deposit_id;
        amount = store_amount payload.amount;
        period_start = store_datetime start;
        period_end = store_datetime e;
      } in
      let old = histories_of payment_id db.histories in
      answered-IsRecorded h (record {
        entry = entry;
        entries = arrange (entry ∷ old);
        listed = rw (eq_refl payment_id) (rw (eq_refl payment_id) refl);
        among = keeps entry (entry ∷ old) (Memᴰ.head refl);
        others = refl;
        deposit = refl;
        amount = refl;
        end = refl;
      })

  record_payment-IsRecorded :
      (u : UserService) (current : Option Datetime) (e : Result Datetime) (running : Result Bool)
      {p : Payment} {db' : Tables}
      → record_payment lower store_datetime store_amount now payment_id history_id payload u current
          e running db
        ≡ (ok p, db')
      → IsRecorded p db'
  unfolding record_payment
  record_payment-IsRecorded u current (err x) running h = cc
  record_payment-IsRecorded u current (ok e) (err x) h = cc
  record_payment-IsRecorded u current (ok e) (ok running) h =
      insert-IsRecorded u e (base current now running) h

  pay-IsRecorded :
      (u : Option UserService) (t : Option SubscriptionType) (current : Option Datetime)
      {p : Payment} {db' : Tables}
      → pay lower store_datetime store_amount now payment_id history_id payload u t current db
        ≡ (ok p, db')
      → IsRecorded p db'
  unfolding pay
  pay-IsRecorded none t current h = cc
  pay-IsRecorded (some u) none current h = cc
  pay-IsRecorded (some u) (some t) current h =
      record_payment-IsRecorded u current (calculate_expires_at lower t current now)
        (is_running current now) h

  -- The history of a payment that was made lists, in whatever order the database gives, an entry for the
  -- deposit, with the amount that its column keeps, up to the expiry of the payment; the others are those that
  -- the id had already.
  pub create_entity-list_payment_history :
      {p : Payment} {db' : Tables}
      → create_entity lower store_datetime store_amount now payment_id history_id payload db
        ≡ (ok p, db')
      → IsRecorded p db'
  unfolding create_entity
  create_entity-list_payment_history h =
      pay-IsRecorded (get_user_service payload.user_service_id db.user_services)
        (get_subscription_type payload.subscription_type_id db.subscription_types)
        (expires_of (last_payment payload.user_service_id db.payments)) h
