-- ===== src/Payment/Access.antt =====
-- Who is served: the checks for expired subscriptions, after payments and at any later time.
use iot_server.Prelude.{
  ℕ, ◌≡◌, refl, ap, ◌∙◌, String, Bool, false, none, some, List, [], ◌∷◌, str_eq, eq_iff, ◌||◌, ◌&&◌,
  not, if◌then◌else◌, arith, Bool-cases, Option-cases, inl, inr,
}
use iot_server.Payment.Rows.{UserService, Tables, get_user_service, last_payment, with_active}
use iot_server.Payment.Service.{
  is_expired, is_serving, deactivate, check_and_update_expired, check_all,
}
use iot_server.Payment.Extend.{get-with_active}

get-other :
    (id j : String) (b : Bool) (us : List UserService)
    → str_eq id j ≡ false
    → get_user_service j (with_active id b us) ≡ get_user_service j us
unfolding get_user_service with_active
get-other id j b [] n = refl
get-other id j b (u ∷ us) n = elim (Bool-cases (str_eq u.id id)) [
  | inl yes_ ↦
      let m : str_eq u.id j ≡ false = ap (λ x. str_eq x j) ((eq_iff u.id id).0 yes_) ∙ n in
      rw yes_ (rw m (get-other id j b us n))
  | inr no_ ↦ rw no_ (ap (λ rest. if str_eq u.id j then some u else rest) (get-other id j b us n))
]

get-none :
    (id : String) (us : List UserService)
    → get_user_service id us ≡ none
    → get_user_service id (with_active id false us) ≡ none
unfolding get_user_service with_active
get-none id [] e = refl
get-none id (u ∷ us) e = elim (Bool-cases (str_eq u.id id)) [
  | inl yes_ ↦ let bad : some u ≡ none = rw yes_ at e in cc
  | inr no_ ↦ rw no_ (rw no_ (get-none id us (rw no_ at e)))
]

serving-off :
    (id : String) (us : List UserService)
    → is_serving (get_user_service id (with_active id false us)) ≡ false
unfolding is_serving
serving-off id us = elim (Option-cases (get_user_service id us)) [
  | inl none_ ↦ rw (get-none id us none_) refl
  | inr (u, some_) ↦ rw (get-with_active id false us u some_) refl
]

check_self :
    (now : ℕ) (j : String) (db : Tables)
    → is_serving (get_user_service j (check_and_update_expired now j db).user_services)
      ≡ is_serving (get_user_service j db.user_services)
        && not (is_expired (last_payment j db.payments) now)
unfolding check_and_update_expired deactivate
check_self now j db =
    elim (Bool-cases (
      is_expired (last_payment j db.payments) now
      && is_serving (get_user_service j db.user_services))) [
        | inl both ↦ rw both (rw (serving-off j db.user_services) (ground arith))
        | inr not_both ↦ rw not_both (ground arith)
      ]

-- One check: a service is served afterwards if it was before, unless it is the one that was checked and
-- its last payment has expired.
pub check-serving :
    (now : ℕ) (id j : String) (db : Tables)
    → is_serving (get_user_service j (check_and_update_expired now id db).user_services)
      ≡ is_serving (get_user_service j db.user_services)
        && not (str_eq id j && is_expired (last_payment j db.payments) now)
unfolding check_and_update_expired deactivate
check-serving now id j db = elim (Bool-cases (str_eq id j)) [
  | inl yes_ ↦ rw yes_ (rw ((eq_iff id j).0 yes_) (check_self now j db))
  | inr no_ ↦
      rw no_
        (elim (Bool-cases (
          is_expired (last_payment id db.payments) now
          && is_serving (get_user_service id db.user_services))) [
            | inl both ↦ rw both (rw (get-other id j false db.user_services no_) (ground arith))
            | inr not_both ↦ rw not_both (ground arith)
          ])
]

pub check-payments :
    (now : ℕ) (id : String) (db : Tables)
    → (check_and_update_expired now id db).payments ≡ db.payments
unfolding check_and_update_expired deactivate
check-payments now id db =
    elim (Bool-cases (
      is_expired (last_payment id db.payments) now
      && is_serving (get_user_service id db.user_services))) [
        | inl both ↦ rw both refl
        | inr not_both ↦ rw not_both refl
      ]

unfoldable pub names : String → List UserService → Bool
names j [] = false
names j (u ∷ us) = str_eq u.id j || names j us

-- After the checks of a list of user services, exactly the ones that were served before are served, but
-- for those in the list whose last payment has expired.
pub check_all-serving :
    (now : ℕ) (us : List UserService) (j : String) (db : Tables)
    → is_serving (get_user_service j (check_all now us db).user_services)
      ≡ is_serving (get_user_service j db.user_services)
        && not (names j us && is_expired (last_payment j db.payments) now)
unfolding check_all names
check_all-serving now [] j db = ground arith
check_all-serving now (u ∷ us) j db =
    rw
      (
        check_all-serving now us j (check_and_update_expired now u.id db),
        check-payments now u.id db,
        check-serving now u.id j db,
      )
      (ground arith)
