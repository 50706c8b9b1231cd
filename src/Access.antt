-- ===== src/Access.antt =====
-- The tables that relate managers, services, devices, applications, users and tickets
-- (app/database/model.py), and the views of app/database/views.py, which say what a manager may see.
pub mod Views
pub mod Listing
pub mod Counting
pub mod Rows
pub mod Assign
pub mod Effects
pub mod Removal
pub mod Tickets
use iot_server.Prelude.{
  ℕ, String, Bool, true, false, Option, none, some, List, [], ◌∷◌, ◌++◌, str_eq, ◌&&◌, ◌||◌,
  if◌then◌else◌,
}

-- A row of manager_service, application_service, device_service or user_role: the second key is that of
-- the service, or of the role.
pub record Link : Type 0 where
  pub id : String
  pub left : String
  pub right : String

-- A row of service, device, application or user, as far as access to it goes.
pub record Item : Type 0 where
  pub id : String
  pub created_at : ℕ

pub record Role : Type 0 where
  pub id : String
  pub service_id : String

pub record EcosystemTicket : Type 0 where
  pub id : String
  pub created_at : ℕ
  pub manager_service_id : String

pub record ServiceTicket : Type 0 where
  pub id : String
  pub created_at : ℕ
  pub service_id : String
  pub user_role_id : String

pub record Org : Type 0 where
  pub services : List Item
  pub devices : List Item
  pub applications : List Item
  pub users : List Item
  pub managers : List Item
  pub roles : List Role
  pub manager_services : List Link
  pub application_services : List Link
  pub device_services : List Link
  pub user_roles : List Link
  pub ecosystem_tickets : List EcosystemTicket
  pub service_tickets : List ServiceTicket

-- A row of a view.
pub record Pair : Type 0 where
  pub item : String
  pub manager : String

abbrev pub rows_where {ℓ} : {A : Type ℓ} → (A → Bool) → List A → List A
rows_where p [] = []
rows_where p (x ∷ xs) = let rest = rows_where p xs in if p x then x ∷ rest else rest

abbrev pub for_each {ℓ κ} : {A : Type ℓ} {B : Type κ} → (A → List B) → List A → List B
for_each f [] = []
for_each f (x ∷ xs) = f x ++ for_each f xs

abbrev pub any {ℓ} : {A : Type ℓ} → (A → Bool) → List A → Bool
any p [] = false
any p (x ∷ xs) = p x || any p xs

abbrev pub same_pair : Pair → Pair → Bool
same_pair p q = str_eq p.item q.item && str_eq p.manager q.manager

-- `SELECT 1 FROM <view> WHERE <item> = … AND manager_id = …` finds a row.
abbrev pub has : String → String → List Pair → Bool
has item manager = any (same_pair (record { item = item; manager = manager }))

unfoldable pub distinct : List Pair → List Pair
distinct [] = []
distinct (p ∷ ps) = let rest = distinct ps in if any (same_pair p) ps then rest else p ∷ rest

-- `JOIN manager m ON ms.manager_id = m.id`, for one row of manager_service.
unfoldable pub pairs_of : List Item → String → Link → List Pair
pairs_of managers item ms =
    for_each (λ (m : Item). record { item = item; manager = m.id } ∷ [])
      (rows_where (λ (m : Item). str_eq ms.left m.id) managers)

unfoldable pub to_managers : List Item → String → List Link → List Pair
unfolding pairs_of
to_managers managers item links = for_each (pairs_of managers item) links

-- `SELECT DISTINCT x.id, m.id FROM x …`, where `links` joins a row to the manager_service rows.
unfoldable pub manager_vw {ℓ} :
    {A : Type ℓ} → (A → String) → (A → List Link) → List Item → List A → List Pair
unfolding to_managers distinct
manager_vw id links managers xs =
    distinct (for_each (λ x. to_managers managers (id x) (links x)) xs)

-- `JOIN manager_service ms ON … = ms.service_id`
unfoldable pub of_service : Org → String → List Link
of_service db service_id =
    rows_where (λ (ms : Link). str_eq service_id ms.right) db.manager_services

unfoldable pub service_links : Org → Item → List Link
unfolding of_service
service_links db s = of_service db s.id

-- Through the rows of device_service or application_service.
unfoldable pub links_through : Org → List Link → Item → List Link
unfolding of_service
links_through db table x =
    for_each (λ (l : Link). of_service db l.right)
      (rows_where (λ (l : Link). str_eq x.id l.left) table)

unfoldable pub user_links : Org → Item → List Link
unfolding of_service
user_links db u =
    for_each
      (λ (ur : Link).
        for_each (λ (r : Role). of_service db r.service_id)
          (rows_where (λ (r : Role). str_eq ur.right r.id) db.roles))
      (rows_where (λ (ur : Link). str_eq u.id ur.left) db.user_roles)

unfoldable pub ticket_links : Org → EcosystemTicket → List Link
ticket_links db et =
    rows_where (λ (ms : Link). str_eq et.manager_service_id ms.id) db.manager_services

abbrev pub item_id : Item → String
item_id x = x.id

unfoldable pub service_manager_vw : Org → List Pair
unfolding manager_vw service_links
service_manager_vw db = manager_vw item_id (service_links db) db.managers db.services

unfoldable pub device_manager_vw : Org → List Pair
unfolding manager_vw links_through
device_manager_vw db =
    manager_vw item_id (links_through db db.device_services) db.managers db.devices

unfoldable pub application_manager_vw : Org → List Pair
unfolding manager_vw links_through
application_manager_vw db =
    manager_vw item_id (links_through db db.application_services) db.managers db.applications

unfoldable pub user_manager_vw : Org → List Pair
unfolding manager_vw user_links
user_manager_vw db = manager_vw item_id (user_links db) db.managers db.users

unfoldable pub ticket_manager_vw : Org → List Pair
unfolding manager_vw ticket_links
ticket_manager_vw db =
    manager_vw (λ (et : EcosystemTicket). et.id) (ticket_links db) db.managers db.ecosystem_tickets
