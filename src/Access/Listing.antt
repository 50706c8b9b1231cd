-- ===== src/Access/Listing.antt =====
-- Which rows the services of app/domain list and return to whom: `get_for_manager` and
-- `check_manager_access` of the repositories, `get_all` and `get_by_id` of the services.
pub mod Agree
use iot_server.Prelude.{
  ℕ, ◌+◌, String, Bool, true, false, Option, none, some, List, [], ◌∷◌, str_eq, ltb, ◌==◌, ◌&&◌,
  if◌then◌else◌,
}
use iot_server.Prelude.Lists.{length, take, drop}
use iot_server.Http.{Result, ok, err, not_found}
use iot_server.Policy.{CurrentUser}
use iot_server.Access.{
  Link, Item, Org, Pair, EcosystemTicket, ServiceTicket, rows_where, for_each, any, has, manager_vw,
  service_manager_vw, device_manager_vw, application_manager_vw, user_manager_vw, ticket_manager_vw,
  item_id,
}
use iot_server.Access.Counting.{count_for}

-- `PageResponse`, without the offset and the limit that it repeats.
pub record PageResponse (A : Type 0) : Type 0 where
  pub total : ℕ
  pub rows : List A

module _ {A : Type 0} (id : A → String) (created_at : A → ℕ) where
  unfoldable pub insert_latest : A → List A → List A
  insert_latest x [] = x ∷ []
  insert_latest x (y ∷ ys) =
      let rest = insert_latest x ys in
      if ltb (created_at x) (created_at y) then y ∷ rest else x ∷ y ∷ ys

  -- `order_by(created_at.desc())`
  unfoldable pub latest_first : List A → List A
  unfolding insert_latest
  latest_first [] = []
  latest_first (x ∷ xs) = insert_latest x (latest_first xs)

  -- `.offset(offset).limit(limit)`
  abbrev pub page : ℕ → ℕ → List A → List A
  page offset limit rows = take limit (drop offset rows)

  abbrev pub empty_page : PageResponse A
  empty_page = record { total = 0; rows = [] }

  -- The count of the view decides whether the rows are read at all.
  unfoldable pub counted : ℕ → List A → PageResponse A
  counted total rows = if total == 0 then empty_page else record { total = total; rows = rows }

  -- `get_for_manager` of a repository, over its view.
  unfoldable pub get_for_manager : List Pair → List A → String → ℕ → ℕ → PageResponse A
  unfolding counted latest_first
  get_for_manager view rows manager_id offset limit =
      counted (count_for manager_id view)
        (page offset limit (latest_first (rows_where (λ x. has (id x) manager_id view) rows)))

  -- `BaseRepository.get_all`
  unfoldable pub get_every : List A → ℕ → ℕ → PageResponse A
  get_every rows offset limit = record { total = length rows; rows = page offset limit rows }

  -- What `get_all` of a service answers by the account type of the user.
  unfoldable pub list_as :
      String → PageResponse A → PageResponse A → PageResponse A → PageResponse A
  list_as account_type every managed own =
      if str_eq account_type "administrator"
      then every
      else (if str_eq account_type "manager"
          then managed
          else (if str_eq account_type "user" then own else empty_page))

  unfoldable pub get_all : Option CurrentUser → List Pair → List A → ℕ → ℕ → PageResponse A
  unfolding list_as get_every get_for_manager
  get_all none view rows offset limit = get_every rows offset limit
  get_all (some u) view rows offset limit =
      list_as u.account_type (get_every rows offset limit)
        (get_for_manager view rows u.account_id offset limit) empty_page

  unfoldable pub first_with : String → List A → Option A
  first_with key [] = none
  first_with key (x ∷ xs) = if str_eq (id x) key then some x else first_with key xs

  -- Whether the user may see the row `key`: administrators all, managers those of the view, and users
  -- those that `own` says.
  unfoldable pub may_see : Option CurrentUser → List Pair → (CurrentUser → Bool) → String → Bool
  may_see none view own key = true
  may_see (some u) view own key =
      if str_eq u.account_type "administrator"
      then true
      else (if str_eq u.account_type "manager"
          then has key u.account_id view
          else (if str_eq u.account_type "user" then own u else false))

  unfoldable pub shown : String → Bool → Option A → Result A
  shown entity_name allowed none = err (not_found entity_name)
  shown entity_name allowed (some x) = if allowed then ok x else err (not_found entity_name)

  unfoldable pub get_by_id : String → Option CurrentUser → List Pair → List A → String → Result A
  unfolding may_see shown first_with
  get_by_id entity_name user view rows key =
      shown entity_name (may_see user view (λ _. false) key) (first_with key rows)

abbrev pub created : Item → ℕ
created x = x.created_at

module _ (user : Option CurrentUser) (db : Org) where
  unfoldable pub list_services : ℕ → ℕ → PageResponse Item
  unfolding get_all service_manager_vw
  list_services = get_all item_id created user (service_manager_vw db) db.services

  unfoldable pub get_service : String → Result Item
  unfolding get_by_id service_manager_vw
  get_service = get_by_id item_id created "Service" user (service_manager_vw db) db.services

  unfoldable pub list_devices : ℕ → ℕ → PageResponse Item
  unfolding get_all device_manager_vw
  list_devices = get_all item_id created user (device_manager_vw db) db.devices

  unfoldable pub get_device : String → Result Item
  unfolding get_by_id device_manager_vw
  get_device = get_by_id item_id created "Device" user (device_manager_vw db) db.devices

  unfoldable pub list_applications : ℕ → ℕ → PageResponse Item
  unfolding get_all application_manager_vw
  list_applications = get_all item_id created user (application_manager_vw db) db.applications

  unfoldable pub get_application : String → Result Item
  unfolding get_by_id application_manager_vw
  get_application =
      get_by_id item_id created "Application" user (application_manager_vw db) db.applications

  -- A user gets the row with his own id.
  unfoldable pub own_row : Option Item → PageResponse Item
  own_row none = empty_page item_id created
  own_row (some x) = record { total = 1; rows = x ∷ [] }

  unfoldable pub list_users_for : Option CurrentUser → ℕ → ℕ → PageResponse Item
  unfolding list_as get_every get_for_manager own_row first_with user_manager_vw
  list_users_for none offset limit = get_every item_id created db.users offset limit
  list_users_for (some u) offset limit =
      list_as item_id created u.account_type (get_every item_id created db.users offset limit)
        (get_for_manager item_id created (user_manager_vw db) db.users u.account_id offset limit)
        (own_row (first_with item_id created u.account_id db.users))

  unfoldable pub list_users : ℕ → ℕ → PageResponse Item
  unfolding list_users_for
  list_users = list_users_for user

  unfoldable pub get_user : String → Result Item
  unfolding may_see shown first_with user_manager_vw
  get_user key =
      shown item_id created "User"
        (may_see item_id created user (user_manager_vw db) (λ u. str_eq key u.account_id) key)
        (first_with item_id created key db.users)
