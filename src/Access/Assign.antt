-- ===== src/Access/Assign.antt =====
-- The routes of app/domain/service/controller.py that relate managers, applications and devices to a
-- service, `RoleService` of app/domain/role/service.py and the roles of a user in
-- app/domain/user/service.py. The id of a new row is an argument.
use iot_server.Prelude.{
  String, Bool, true, Option, none, some, List, [], ◌∷◌, str_eq, ◌&&◌, not, if◌then◌else◌,
}
use iot_server.Http.{Exec, Result, ok, err, Exception, http, not_found, already_exists}
use iot_server.Access.{Link, Item, Role, Org, any, rows_where}

-- `session.get(…)` finds a row.
abbrev pub exists : String → List Item → Bool
exists id = any (λ (x : Item). str_eq id x.id)

abbrev pub role_exists : String → List Role → Bool
role_exists id = any (λ (r : Role). str_eq id r.id)

abbrev pub linked : String → String → List Link → Bool
linked left right = any (λ (l : Link). str_eq l.left left && str_eq l.right right)

-- `.where(left == …, right == …).first()`
unfoldable pub first_link : String → String → List Link → Option Link
first_link left right [] = none
first_link left right (l ∷ ls) =
    if str_eq l.left left && str_eq l.right right then some l else first_link left right ls

-- `session.delete(row)`, by its primary key.
unfoldable pub delete_link : String → List Link → List Link
delete_link id ls = rows_where (λ (l : Link). not (str_eq l.id id)) ls

-- A new row, if both rows that it relates exist and are not yet related.
unfoldable pub assign_link :
    Bool → Bool → Exception → Exception → Exception → Link → List Link → Result Link × List Link
assign_link has_first has_second no_first no_second taken row links =
    if not has_first
    then (err no_first, links)
    else (if not has_second
        then (err no_second, links)
        else (if linked row.left row.right links
            then (err taken, links)
            else (ok row, row ∷ links)))

unfoldable pub unassign_found : Option Link → Exception → List Link → Result (Unit {0}) × List Link
unfolding delete_link
unassign_found none absent links = (err absent, links)
unassign_found (some row) absent links = (ok tt, delete_link row.id links)

unfoldable pub unassign_link :
    String → String → Exception → List Link → Result (Unit {0}) × List Link
unfolding unassign_found first_link
unassign_link left right absent links = unassign_found (first_link left right links) absent links

unfoldable pub list_links : Bool → Exception → List Link → Result (List Link)
list_links found absent links = if not found then err absent else ok links

abbrev pub link : String → String → String → Link
link new left right = record { id = new; left = left; right = right }

abbrev pub no_service : Exception
no_service = http 404 "Service not found"

module _ (db : Org) where
  -- The database with the rows of one relation written.
  abbrev pub with_managers : {A : Type 0} → Result A × List Link → Result A × Org
  with_managers (r, links) = (r, record db { manager_services = links })

  abbrev pub with_applications : {A : Type 0} → Result A × List Link → Result A × Org
  with_applications (r, links) = (r, record db { application_services = links })

  abbrev pub with_devices : {A : Type 0} → Result A × List Link → Result A × Org
  with_devices (r, links) = (r, record db { device_services = links })

  abbrev pub with_user_roles : {A : Type 0} → Result A × List Link → Result A × Org
  with_user_roles (r, links) = (r, record db { user_roles = links })

unfoldable pub assign_manager : String → String → String → Exec Org Link
unfolding assign_link
assign_manager new service_id manager_id db = with_managers db (
    assign_link (exists service_id db.services) (exists manager_id db.managers) no_service
      (http 404 "Manager not found") (http 409 "Manager already assigned to this service")
      (link new manager_id service_id) db.manager_services)

unfoldable pub unassign_manager : String → String → Exec Org (Unit {0})
unfolding unassign_link
unassign_manager service_id manager_id db = with_managers db (
    unassign_link manager_id service_id (http 404 "Manager not assigned to this service")
      db.manager_services)

abbrev pub of_right : String → List Link → List Link
of_right right = rows_where (λ (l : Link). str_eq l.right right)

unfoldable pub list_managers : String → Org → Result (List Link)
unfolding list_links
list_managers service_id db =
    list_links (exists service_id db.services) no_service (of_right service_id db.manager_services)

unfoldable pub assign_application : String → String → String → Exec Org Link
unfolding assign_link
assign_application new service_id application_id db = with_applications db (
    assign_link (exists service_id db.services) (exists application_id db.applications) no_service
      (http 404 "Application not found") (http 409 "Application already assigned to this service")
      (link new application_id service_id) db.application_services)

unfoldable pub unassign_application : String → String → Exec Org (Unit {0})
unfolding unassign_link
unassign_application service_id application_id db = with_applications db (
    unassign_link application_id service_id (http 404 "Application not assigned to this service")
      db.application_services)

unfoldable pub list_applications : String → Org → Result (List Link)
unfolding list_links
list_applications service_id db =
    list_links (exists service_id db.services) no_service
      (of_right service_id db.application_services)

unfoldable pub assign_device : String → String → String → Exec Org Link
unfolding assign_link
assign_device new service_id device_id db = with_devices db (
    assign_link (exists service_id db.services) (exists device_id db.devices) no_service
      (http 404 "Device not found") (http 409 "Device already assigned to this service")
      (link new device_id service_id) db.device_services)

unfoldable pub unassign_device : String → String → Exec Org (Unit {0})
unfolding unassign_link
unassign_device service_id device_id db = with_devices db (
    unassign_link device_id service_id (http 404 "Device not assigned to this service")
      db.device_services)

unfoldable pub list_devices : String → Org → Result (List Link)
unfolding list_links
list_devices service_id db =
    list_links (exists service_id db.services) no_service (of_right service_id db.device_services)

-- `RoleService`
unfoldable pub assign_user : String → String → String → Exec Org Link
unfolding assign_link
assign_user new role_id user_id db = with_user_roles db (
    assign_link (role_exists role_id db.roles) (exists user_id db.users) (not_found "Role")
      (not_found "User") (already_exists "UserRole") (link new user_id role_id) db.user_roles)

unfoldable pub remove_user : String → String → Exec Org (Unit {0})
unfolding unassign_link
remove_user role_id user_id db =
    with_user_roles db (unassign_link user_id role_id (not_found "UserRole") db.user_roles)

unfoldable pub get_users_by_role : String → Org → Result (List Link)
unfolding list_links
get_users_by_role role_id db =
    list_links (role_exists role_id db.roles) (not_found "Role") (of_right role_id db.user_roles)

-- `UserService`
unfoldable pub assign_role_to_user : String → String → String → Exec Org Link
unfolding assign_link
assign_role_to_user new user_id role_id db = with_user_roles db (
    assign_link (exists user_id db.users) (role_exists role_id db.roles) (not_found "User")
      (not_found "Role") (http 409 "Role already assigned to user") (link new user_id role_id)
      db.user_roles)

unfoldable pub remove_role_from_user : String → String → Exec Org (Unit {0})
unfolding unassign_link
remove_role_from_user user_id role_id db =
    with_user_roles db (unassign_link user_id role_id (not_found "UserRole") db.user_roles)

-- The roles of the rows, which the foreign keys make exist.
unfoldable pub roles_of : List Role → List Link → List Role
roles_of roles [] = []
roles_of roles (l ∷ ls) =
    let rest = roles_of roles ls in
    elim (rows_where (λ (r : Role). str_eq l.right r.id) roles) [ [] ↦ rest | r ∷ _ ↦ r ∷ rest ]

unfoldable pub list_roles_by_user : String → Org → Result (List Role)
unfolding roles_of
list_roles_by_user user_id db =
    if not (exists user_id db.users)
    then err (not_found "User")
    else ok (roles_of db.roles (rows_where (λ (l : Link). str_eq l.left user_id) db.user_roles))

-- No two rows relate the same two (the UniqueConstraint of each table).
abbrev pub distinct_links : List Link → Bool
distinct_links [] = true
distinct_links (l ∷ ls) = not (linked l.left l.right ls) && distinct_links ls
