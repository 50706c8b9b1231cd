-- ===== src/Payment/Extend.antt =====
-- What payments write, in the columns without time zones of app/database/model.py.
use iot_server.Prelude.{
  ℕ, ◌+◌, ◌*◌, ◌≡◌, refl, sym, ap, ◌∙◌, String, Bool, true, none, some, List, [], ◌∷◌, str_eq,
  eq_iff, eq_refl, Bool-cases, inl, inr,
}
use iot_server.Http.{ok, err, python}
use iot_server.Payment.Rows.{
  Datetime, naive, later, plus_days, SubscriptionType, UserService, Payment, Tables,
  get_user_service, get_subscription_type, best, last_payment, with_active, set_active,
  without_zone,
}
use iot_server.Payment.Service.{
  PaymentCreate, billing_period, expires_of, is_running, base, extend, calculate,
  calculate_expires_at, insert, record_payment, pay, create_entity,
}

some-set :
    (b : Bool) (x u : UserService) → some x ≡ some u → some (set_active b x) ≡ some (set_active b u)
some-set b x u e = let same : x ≡ u = cc in rw same refl

pub get-id :
    (id : String) (us : List UserService) (u : UserService)
    → get_user_service id us ≡ some u
    → u.id ≡ id
unfolding get_user_service
get-id id [] u e = cc
get-id id (x ∷ us) u e = elim (Bool-cases (str_eq x.id id)) [
  | inl yes_ ↦
      let same : x ≡ u = (let e' : some x ≡ some u = rw yes_ at e in cc) in
      ap (λ y. y.id) (sym same) ∙ (eq_iff x.id id).0 yes_
  | inr no_ ↦ get-id id us u (rw no_ at e)
]

pub get-with_active :
    (id : String) (b : Bool) (us : List UserService) (u : UserService)
    → get_user_service id us ≡ some u
    → get_user_service id (with_active id b us) ≡ some (set_active b u)
unfolding get_user_service with_active
get-with_active id b [] u e = cc
get-with_active id b (x ∷ us) u e = elim (Bool-cases (str_eq x.id id)) [
  | inl yes_ ↦ rw yes_ (rw yes_ (some-set b x u (rw yes_ at e)))
  | inr no_ ↦ rw no_ (rw no_ (get-with_active id b us u (rw no_ at e)))
]

activated :
    (id : String) (us : List UserService) (u : UserService)
    → get_user_service id us ≡ some u
    → get_user_service id (with_active u.id true us) ≡ some (set_active true u)
activated id us u e =
    ap (λ i. get_user_service id (with_active i true us)) (get-id id us u e)
    ∙ get-with_active id true us u e

-- Where the last payment for the user service has no time zone, the comparison with the clock raises.
create-naive :
    (lower : String → String) (store_datetime : Datetime → Datetime)
    (store_amount : String → String) (now : ℕ) (payment_id history_id : String)
    (payload : PaymentCreate) (db : Tables) (u : UserService) (t : SubscriptionType) (p : Payment)
    (days n : ℕ)
    → get_user_service payload.user_service_id db.user_services ≡ some u
    → get_subscription_type payload.subscription_type_id db.subscription_types ≡ some t
    → billing_period (lower t.type) ≡ some days
    → last_payment payload.user_service_id db.payments ≡ some p
    → p.expires_at ≡ naive n
    → create_entity lower store_datetime store_amount now payment_id history_id payload db
      ≡ (err (python "TypeError"), db)
unfolding create_entity pay record_payment calculate_expires_at calculate extend is_running later
    expires_of
create-naive lower store_datetime store_amount now payment_id history_id payload db u t p days n u_
      t_ days_ last_ end_ =
    rw (u_, t_, days_, last_, end_) refl

last_payment-first :
    (id : String) (p : Payment) (ps : List Payment)
    → str_eq p.user_service_id id ≡ true
    → last_payment id ps ≡ none
    → last_payment id (p ∷ ps) ≡ some p
unfolding last_payment best
last_payment-first id p ps mine e = rw (mine, e) refl

module _ (lower store_amount : String → String) where
  -- The first payment for a user service, of a known subscription, runs from now for the days of its period, which
  -- the column keeps without a time zone; it becomes the last payment, the service becomes active, and the
  -- history has a row for that period. A further payment for the user service, of any known subscription and
  -- at any time, raises a TypeError and writes nothing.
  pub create_entity_lem :
      (payload : PaymentCreate) (db : Tables) (u : UserService) (t t' : SubscriptionType)
      (days days' now now' : ℕ) (payment_id history_id payment_id' history_id' : String)
      (type' deposit' amount' : String)
      → get_user_service payload.user_service_id db.user_services ≡ some u
      → get_subscription_type payload.subscription_type_id db.subscription_types ≡ some t
      → billing_period (lower t.type) ≡ some days
      → last_payment payload.user_service_id db.payments ≡ none
      → get_subscription_type type' db.subscription_types ≡ some t'
      → billing_period (lower t'.type) ≡ some days'
      → let p : Payment = record {
        id = payment_id;
        user_service_id = payload.user_service_id;
        subscription_type_id = payload.subscription_type_id;
        expires_at = naive (now + days * 86400);
      } in
        let made =
          create_entity lower without_zone store_amount now payment_id history_id payload db in
        let again : PaymentCreate = record payload {
          subscription_type_id = type';
          deposit_id = deposit';
          amount = amount';
        } in
        (made.0 ≡ ok p)
        × (last_payment payload.user_service_id made.1.payments ≡ some p)
        × (get_user_service payload.user_service_id made.1.user_services ≡ some (set_active true u))
        × (made.1.histories
            ≡ record {
              id = history_id;
              payment_id = payment_id;
              deposit_id = payload.deposit_id;
              amount = store_amount payload.amount;
              period_start = naive now;
              period_end = naive (now + days * 86400);
            }
              ∷ db.histories)
        × (create_entity lower without_zone store_amount now' payment_id' history_id' again made.1
            ≡ (err (python "TypeError"), made.1))
  unfolding create_entity pay record_payment calculate_expires_at calculate extend is_running base
      insert plus_days expires_of without_zone
  create_entity_lem payload db u t t' days days' now now' payment_id history_id payment_id'
        history_id' type' deposit' amount' u_ t_ days_ none_ t'_ days'_ =
      let p : Payment = record {
        id = payment_id;
        user_service_id = payload.user_service_id;
        subscription_type_id = payload.subscription_type_id;
        expires_at = naive (now + days * 86400);
      } in
      let again : PaymentCreate = record payload {
        subscription_type_id = type';
        deposit_id = deposit';
        amount = amount';
      } in
      let last_ = last_payment-first payload.user_service_id p db.payments (eq_refl _) none_ in
      let active = activated payload.user_service_id db.user_services u u_ in
      rw (u_, t_, days_, none_)
        (
          refl,
          last_,
          active,
          refl,
          create-naive lower without_zone store_amount now' payment_id' history_id' again _
              (set_active true u) t' p days' (now + days * 86400) active t'_ days'_ last_ refl,
        )
