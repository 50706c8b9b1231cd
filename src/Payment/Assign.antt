-- ===== src/Payment/Assign.antt =====
-- The routes under /payments/user-services of app/domain/payment/controller.py.
use iot_server.Prelude.{
  ℕ, ◌≡◌, refl, String, Bool, true, false, List, [], ◌∷◌, str_eq, eq_refl, ◌||◌, ◌&&◌, not,
  if◌then◌else◌, arith, Bool-cases, and_true, inl, inr,
}
use iot_server.Http.{Exec, Result, ok, err, http}
use iot_server.Payment.Rows.{UserService, Tables}
use iot_server.Payment.Service.{
  check_all_user_subscriptions, check_all_service_subscriptions, of_user, of_service,
}

unfoldable pub is_pair : String → String → UserService → Bool
is_pair user_id service_id u = str_eq u.user_id user_id && str_eq u.service_id service_id

unfoldable pub is_assigned : String → String → List UserService → Bool
unfolding is_pair
is_assigned user_id service_id [] = false
is_assigned user_id service_id (u ∷ us) =
    is_pair user_id service_id u || is_assigned user_id service_id us

unfoldable pub without_pair : String → String → List UserService → List UserService
unfolding is_pair
without_pair user_id service_id [] = []
without_pair user_id service_id (u ∷ us) =
    let rest = without_pair user_id service_id us in
    if is_pair user_id service_id u then rest else u ∷ rest

unfoldable pub is_row : String → List String → Bool
is_row id [] = false
is_row id (x ∷ xs) = str_eq x id || is_row id xs

unfoldable pub with_user_services : List UserService → Tables → Tables
with_user_services us db = record {
  subscription_types = db.subscription_types;
  user_services = us;
  payments = db.payments;
  histories = db.histories;
  users = db.users;
  services = db.services;
}

unfoldable pub assign_user_to_service : String → String → String → Exec Tables UserService
unfolding with_user_services is_row
assign_user_to_service new_id user_id service_id db =
    let u : UserService = record {
      id = new_id;
      user_id = user_id;
      service_id = service_id;
      is_active = false;
    } in
    if is_row user_id db.users
    then (if is_row service_id db.services
        then (if is_assigned user_id service_id db.user_services
            then (err (http 409 "User already assigned to this service"), db)
            else (ok u, with_user_services (u ∷ db.user_services) db))
        else (err (http 404 "Service not found"), db))
    else (err (http 404 "User not found"), db)

unfoldable pub unassign_user_from_service : String → String → Exec Tables (Unit {0})
unfolding with_user_services
unassign_user_from_service user_id service_id db =
    if is_assigned user_id service_id db.user_services
    then (ok tt, with_user_services (without_pair user_id service_id db.user_services) db)
    else (err (http 404 "User not assigned to this service"), db)

-- The answer of a listing is read after the checks for expired subscriptions.
unfoldable pub list_user_services : ℕ → String → Exec Tables (List UserService)
list_user_services now user_id db =
    let db' = check_all_user_subscriptions now user_id db in
    (ok (of_user user_id db'.user_services), db')

unfoldable pub list_service_users : ℕ → String → Exec Tables (List UserService)
list_service_users now service_id db =
    let db' = check_all_service_subscriptions now service_id db in
    (ok (of_service service_id db'.user_services), db')

-- No user is assigned to a service twice.
unfoldable pub pairs_unique : List UserService → Bool
unfolding is_assigned
pairs_unique [] = true
pairs_unique (u ∷ us) = not (is_assigned u.user_id u.service_id us) && pairs_unique us

is_assigned-without :
    (a b user_id service_id : String) (us : List UserService)
    → is_assigned a b us ≡ false
    → is_assigned a b (without_pair user_id service_id us) ≡ false
unfolding is_assigned without_pair
is_assigned-without a b user_id service_id [] e = refl
is_assigned-without a b user_id service_id (u ∷ us) e =
    let here : is_pair a b u ≡ false = ground arith in
    let rest = is_assigned-without a b user_id service_id us (ground arith) in
    elim (Bool-cases (is_pair user_id service_id u)) [
      | inl yes_ ↦ rw yes_ rest
      | inr no_ ↦ rw no_ (rw (here, rest) refl)
    ]

without_unique :
    (user_id service_id : String) (us : List UserService)
    → pairs_unique us ≡ true
    → pairs_unique (without_pair user_id service_id us) ≡ true
unfolding pairs_unique without_pair
without_unique user_id service_id [] e = refl
without_unique user_id service_id (u ∷ us) e =
    let (here, rest_) = and_true (not (is_assigned u.user_id u.service_id us)) _ e in
    let rest = without_unique user_id service_id us rest_ in
    elim (Bool-cases (is_pair user_id service_id u)) [
      | inl yes_ ↦ rw yes_ rest
      | inr no_ ↦ rw no_ (
          rw (is_assigned-without u.user_id u.service_id user_id service_id us (ground arith), rest)
            refl)
    ]

without-gone :
    (user_id service_id : String) (us : List UserService)
    → is_assigned user_id service_id (without_pair user_id service_id us) ≡ false
unfolding is_assigned without_pair
without-gone user_id service_id [] = refl
without-gone user_id service_id (u ∷ us) = elim (Bool-cases (is_pair user_id service_id u)) [
  | inl yes_ ↦ rw yes_ (without-gone user_id service_id us)
  | inr no_ ↦ rw no_ (rw (no_, without-gone user_id service_id us) refl)
]

abbrev answered : UserService → Result UserService
answered u = ok u

assigned-pair :
    (v : UserService) (us : List UserService)
    → is_assigned v.user_id v.service_id us ≡ false
    → pairs_unique us ≡ true
    → (pairs_unique (v ∷ us) ≡ true)
      × ((u : UserService) → answered v ≡ ok u → is_assigned v.user_id v.service_id (v ∷ us) ≡ true)
unfolding pairs_unique is_assigned
assigned-pair v us free e =
    (rw (free, e) refl, λ u h. rw (eq_refl v.user_id, eq_refl v.service_id) refl)

assign-keeps :
    (new_id user_id service_id : String) (db : Tables)
    → pairs_unique db.user_services ≡ true
    → (pairs_unique (assign_user_to_service new_id user_id service_id db).1.user_services ≡ true)
      × ((u : UserService)
          → (assign_user_to_service new_id user_id service_id db).0 ≡ ok u
          → is_assigned user_id service_id
              (assign_user_to_service new_id user_id service_id db).1.user_services
            ≡ true)
unfolding assign_user_to_service with_user_services
assign-keeps new_id user_id service_id db e = elim (Bool-cases (is_row user_id db.users)) [
  | inr no_user ↦ rw no_user (e, λ u h. cc)
  | inl user ↦ rw user (elim (Bool-cases (is_row service_id db.services)) [
    | inr no_service ↦ rw no_service (e, λ u h. cc)
    | inl service ↦
        rw service (elim (Bool-cases (is_assigned user_id service_id db.user_services)) [
          | inl taken ↦ rw taken (e, λ u h. cc)
          | inr free ↦ rw free (
              assigned-pair
                (record {
                  id = new_id;
                  user_id = user_id;
                  service_id = service_id;
                  is_active = false;
                })
                db.user_services free e)
        ])
  ])
]

unassign-keeps :
    (user_id service_id : String) (db : Tables)
    → pairs_unique db.user_services ≡ true
    → (pairs_unique (unassign_user_from_service user_id service_id db).1.user_services ≡ true)
      × ((unassign_user_from_service user_id service_id db).0 ≡ ok tt
          → is_assigned user_id service_id
              (unassign_user_from_service user_id service_id db).1.user_services
            ≡ false)
unfolding unassign_user_from_service with_user_services
unassign-keeps user_id service_id db e =
    elim (Bool-cases (is_assigned user_id service_id db.user_services)) [
      | inl there ↦ rw there (
        without_unique user_id service_id db.user_services e,
        λ h. without-gone user_id service_id db.user_services,
      )
      | inr absent ↦ rw absent (e, λ h. cc)
    ]

-- Both routes keep the pairs of a user and a service unique.
pub assign_unique :
    (new_id user_id service_id : String) (db : Tables)
    → pairs_unique db.user_services ≡ true
    → (pairs_unique (assign_user_to_service new_id user_id service_id db).1.user_services ≡ true)
      × (pairs_unique (unassign_user_from_service user_id service_id db).1.user_services ≡ true)
assign_unique new_id user_id service_id db e =
    ((assign-keeps new_id user_id service_id db e).0, (unassign-keeps user_id service_id db e).0)
