-- ===== src/Payment/Catalog.antt =====
-- The routes under /payments/subscription-types and /payments/{payment_id}/history of
-- app/domain/payment/controller.py. The database keeps the unique names of subscription types and the
-- references of payments to them.
use iot_server.Prelude.{
  String, Bool, false, Option, none, some, List, [], ◌∷◌, str_eq, ◌||◌, ◌&&◌, not, if◌then◌else◌,
}
use iot_server.Http.{Exec, Exception, Result, ok, err, http, python}
use iot_server.Patch.{Given, unset, null, value}
use iot_server.Payment.Rows.{
  SubscriptionType, Payment, PaymentHistory, Tables, get_subscription_type,
}

unfoldable pub get_payment : String → List Payment → Option Payment
get_payment id [] = none
get_payment id (p ∷ ps) = if str_eq p.id id then some p else get_payment id ps

unfoldable pub histories_of : String → List PaymentHistory → List PaymentHistory
histories_of payment_id [] = []
histories_of payment_id (h ∷ hs) =
    let rest = histories_of payment_id hs in
    if str_eq h.payment_id payment_id then h ∷ rest else rest

-- The query gives no order: `arrange` is the one that the database chooses.
module _ (arrange : List PaymentHistory → List PaymentHistory) where
  unfoldable pub history_of : Option Payment → String → Exec Tables (List PaymentHistory)
  unfolding histories_of
  history_of none payment_id db = (err (http 404 "Payment not found"), db)
  history_of (some p) payment_id db = (ok (arrange (histories_of payment_id db.histories)), db)

  unfoldable pub list_payment_history : String → Exec Tables (List PaymentHistory)
  unfolding history_of get_payment
  list_payment_history payment_id db = history_of (get_payment payment_id db.payments) payment_id db

-- A row of the table other than the one with the id has the name.
unfoldable pub is_name_of_other : String → String → List SubscriptionType → Bool
is_name_of_other id name [] = false
is_name_of_other id name (t ∷ ts) =
    (str_eq t.type name && not (str_eq t.id id)) || is_name_of_other id name ts

unfoldable pub is_name : String → List SubscriptionType → Bool
is_name name [] = false
is_name name (t ∷ ts) = str_eq t.type name || is_name name ts

abbrev pub with_subscription_types : List SubscriptionType → Tables → Tables
with_subscription_types ts db = record db { subscription_types = ts }

abbrev pub integrity_error : Exception
integrity_error = python "IntegrityError"

-- `SubscriptionTypeResponse` wants a cost.
unfoldable pub respond : SubscriptionType → Result SubscriptionType
respond t = elim t.cost [ none ↦ err (python "ResponseValidationError") | some c ↦ ok t ]

unfoldable pub then_cons :
    SubscriptionType → Result (List SubscriptionType) → Result (List SubscriptionType)
then_cons t (ok ts) = ok (t ∷ ts)
then_cons t (err e) = err e

unfoldable pub and_respond :
    Result SubscriptionType → Result (List SubscriptionType) → Result (List SubscriptionType)
unfolding then_cons
and_respond (ok t) rest = then_cons t rest
and_respond (err e) rest = err e

unfoldable pub respond_all : List SubscriptionType → Result (List SubscriptionType)
unfolding respond and_respond
respond_all [] = ok []
respond_all (t ∷ ts) = and_respond (respond t) (respond_all ts)

pub record SubscriptionTypeUpdate : Type 0 where
  pub type : Given
  pub cost : Given

unfoldable pub new_cost : Given → Option String → Option String
new_cost unset old = old
new_cost null old = none
new_cost (value c) old = some c

-- The column of the name is not nullable and unique.
unfoldable pub new_type : Given → SubscriptionType → List SubscriptionType → Result String
unfolding is_name_of_other
new_type unset t ts = ok t.type
new_type null t ts = err integrity_error
new_type (value name) t ts = if is_name_of_other t.id name ts then err integrity_error else ok name

unfoldable pub replace : SubscriptionType → List SubscriptionType → List SubscriptionType
replace new [] = []
replace new (t ∷ ts) =
    let rest = replace new ts in if str_eq t.id new.id then new ∷ rest else t ∷ rest

unfoldable pub without_type : String → List SubscriptionType → List SubscriptionType
without_type id [] = []
without_type id (t ∷ ts) =
    let rest = without_type id ts in if str_eq t.id id then rest else t ∷ rest

unfoldable pub is_paid_for : String → List Payment → Bool
is_paid_for id [] = false
is_paid_for id (p ∷ ps) = str_eq p.subscription_type_id id || is_paid_for id ps

abbrev pub no_type : Exception
no_type = http 404 "Subscription type not found"

-- `store_cost` is what the column, with two decimals, keeps of a cost.
module _ (store_cost : String → String) where
  unfoldable pub create_subscription_type : String → String → String → Exec Tables SubscriptionType
  unfolding is_name respond
  create_subscription_type new_id type cost db =
      let t : SubscriptionType = record {
        id = new_id;
        type = type;
        cost = some (store_cost cost);
      } in
      if is_name type db.subscription_types
      then (err (http 409 "Subscription type already exists"), db)
      else (respond t, with_subscription_types (t ∷ db.subscription_types) db)

  unfoldable pub stored : Option String → Option String
  stored none = none
  stored (some c) = some (store_cost c)

  unfoldable pub write_update :
      SubscriptionType → Given → Result String → Exec Tables SubscriptionType
  unfolding respond replace new_cost stored
  write_update t cost (err e) db = (err e, db)
  write_update t cost (ok name) db =
      let t' : SubscriptionType = record {
        id = t.id;
        type = name;
        cost = stored (new_cost cost t.cost);
      } in
      (respond t', with_subscription_types (replace t' db.subscription_types) db)

  unfoldable pub update_found :
      Option SubscriptionType → SubscriptionTypeUpdate → Exec Tables SubscriptionType
  unfolding write_update new_type
  update_found none payload db = (err no_type, db)
  update_found (some t) payload db =
      write_update t payload.cost (new_type payload.type t db.subscription_types) db

  unfoldable pub update_subscription_type :
      String → SubscriptionTypeUpdate → Exec Tables SubscriptionType
  unfolding update_found
  update_subscription_type type_id payload db =
      update_found (get_subscription_type type_id db.subscription_types) payload db

unfoldable pub list_subscription_types : Exec Tables (List SubscriptionType)
unfolding respond_all
list_subscription_types db = (respond_all db.subscription_types, db)

unfoldable pub respond_found : Option SubscriptionType → Result SubscriptionType
unfolding respond
respond_found none = err no_type
respond_found (some t) = respond t

-- The route GET /subscription-types/{type_id}.
unfoldable pub read_subscription_type : String → Exec Tables SubscriptionType
unfolding respond_found
read_subscription_type type_id db =
    (respond_found (get_subscription_type type_id db.subscription_types), db)

unfoldable pub delete_found : Option SubscriptionType → String → Exec Tables (Unit {0})
unfolding without_type is_paid_for
delete_found none type_id db = (err no_type, db)
delete_found (some t) type_id db =
    if is_paid_for type_id db.payments
    then (err integrity_error, db)
    else (ok tt, with_subscription_types (without_type type_id db.subscription_types) db)

unfoldable pub delete_subscription_type : String → Exec Tables (Unit {0})
unfolding delete_found
delete_subscription_type type_id db =
    delete_found (get_subscription_type type_id db.subscription_types) type_id db
