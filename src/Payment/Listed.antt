-- ===== src/Payment/Listed.antt =====
-- The listing of the subscription types of app/domain/payment/controller.py.
use iot_server.Prelude.{
  ◌≡◌, refl, ap, ◌∙◌, String, true, false, Option, none, some, List, [], ◌∷◌, str_eq, eq_iff,
  Bool-cases, inl, inr,
}
use iot_server.Http.{Result, err, Exception, python}
use iot_server.Patch.{unset, null}
use iot_server.Payment.Rows.{SubscriptionType, Tables, get_subscription_type}
use iot_server.Payment.Catalog.{
  SubscriptionTypeUpdate, respond, then_cons, and_respond, respond_all, new_type, new_cost, stored,
  replace, write_update, update_found, update_subscription_type, list_subscription_types,
  with_subscription_types,
}

abbrev pub invalid_response : Exception
invalid_response = python "ResponseValidationError"

get-id :
    (id : String) (ts : List SubscriptionType) {t : SubscriptionType}
    → get_subscription_type id ts ≡ some t
    → t.id ≡ id
unfolding get_subscription_type
get-id id [] h = cc
get-id id (u ∷ us) {t} h = elim (Bool-cases (str_eq u.id id)) [
  | inl yes_ ↦
      let same : some u ≡ some t = rw yes_ at h in let e : u.id ≡ id = (eq_iff _ _).0 yes_ in cc
  | inr no_ ↦ get-id id us (rw no_ at h)
]

abbrev uncosted : SubscriptionType → SubscriptionType
uncosted t = record { id = t.id; type = t.type; cost = none }

respond-failed :
    (r : Option String) (u : SubscriptionType) (rest : Result (List SubscriptionType))
    → u.cost ≡ r
    → rest ≡ err invalid_response
    → and_respond (respond u) rest ≡ err invalid_response
unfolding and_respond respond then_cons
respond-failed none u rest c e = rw c refl
respond-failed (some x) u rest c e = rw (c, e) refl

respond_all-replace :
    (id : String) (ts : List SubscriptionType) {t : SubscriptionType} (new : SubscriptionType)
    → get_subscription_type id ts ≡ some t
    → new.id ≡ id
    → new.cost ≡ none
    → respond_all (replace new ts) ≡ err invalid_response
unfolding get_subscription_type replace respond_all
respond_all-replace id [] new h same c = cc
respond_all-replace id (u ∷ us) new h same c = elim (Bool-cases (str_eq u.id id)) [
  | inl yes_ ↦
      let hit : str_eq u.id new.id ≡ true = ap (str_eq u.id) same ∙ yes_ in
      rw hit (unfold respond and_respond in rw c refl)
  | inr no_ ↦
      let miss : str_eq u.id new.id ≡ false = ap (str_eq u.id) same ∙ no_ in
      rw miss (respond-failed u.cost u _ refl (respond_all-replace id us new (rw no_ at h) same c))
]

-- Setting the cost of a subscription type to null is stored although its answer fails, and the list of all
-- subscription types fails from then on.
pub update_subscription_type-null :
    (store_cost : String → String) (id : String) (payload : SubscriptionTypeUpdate) (db : Tables)
    {t : SubscriptionType}
    → get_subscription_type id db.subscription_types ≡ some t
    → payload.type ≡ unset
    → payload.cost ≡ null
    → let (answer, db') = update_subscription_type store_cost id payload db in
      (answer ≡ err invalid_response) × (list_subscription_types db' ≡ (err invalid_response, db'))
unfolding update_subscription_type update_found new_type write_update new_cost stored
    list_subscription_types
update_subscription_type-null store_cost id payload db {t} found same_type no_cost =
    rw (found, same_type, no_cost)
      (
        unfold respond in refl,
        ap (λ r. (r, with_subscription_types (replace (uncosted t) db.subscription_types) db))
            (respond_all-replace id db.subscription_types (uncosted t) found
              (get-id id db.subscription_types found) refl),
      )
