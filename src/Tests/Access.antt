-- ===== src/Tests/Access.antt =====
-- The theorems on what managers see, at a concrete organisation.
use iot_server.Prelude.{◌≡◌, refl, false, none, some, [], ◌∷◌, str_eq, ◌&&◌, if◌then◌else◌}
use iot_server.Http.{ok}
use iot_server.Policy.{CurrentUser}
use iot_server.Access.{Org}
use iot_server.Access.Listing.{
  list_services, get_service, list_devices, get_device, list_applications, get_application,
}
use iot_server.Access.Listing.Agree.{Agrees, is_ok, listings_agree}
use iot_server.Access.Assign.{assign_manager, link}
use iot_server.Access.Effects.{get_service-assign_manager}

abbrev manager_user : CurrentUser
manager_user = record {
  account_id = "m1";
  account_type = "manager";
  email = "m@b.mx";
  is_master = false;
  sensitive_data_id = "s2";
}

abbrev other_user : CurrentUser
other_user = record manager_user { account_id = "m2" }

abbrev company : Org
company = record {
  services = record { id = "s1"; created_at = 5 } ∷ record { id = "s2"; created_at = 6 } ∷ [];
  devices = record { id = "d1"; created_at = 1 } ∷ [];
  applications = [];
  users = [];
  managers = record { id = "m1"; created_at = 0 } ∷ record { id = "m2"; created_at = 0 } ∷ [];
  roles = [];
  manager_services = link "l1" "m1" "s1" ∷ [];
  application_services = [];
  device_services = link "l2" "d1" "s1" ∷ [];
  user_roles = [];
  ecosystem_tickets = [];
  service_tickets =
      record { id = "t1"; created_at = 3; service_id = "s1"; user_role_id = "u" } ∷ [];
}

listings_agree_example :
    Agrees
      (λ x. is_ok (get_service (some manager_user) company x.id))
      company.services
      (list_services (some manager_user) company 0 10)
    × Agrees
        (λ x. is_ok (get_device (some manager_user) company x.id))
        company.devices
        (list_devices (some manager_user) company 0 10)
    × Agrees
        (λ x. is_ok (get_application (some manager_user) company x.id))
        company.applications
        (list_applications (some manager_user) company 0 10)
listings_agree_example = listings_agree (some manager_user) company 0 10 refl refl refl

manager_sees_one : (list_services (some manager_user) company 0 10).total ≡ 1
unfolding list_services
manager_sees_one = refl

get_service-assign_manager_example :
    get_service (some manager_user) (assign_manager "l9" "s2" "m1" company).1 "s2" ≡ (
      if str_eq "m1" "m1" && str_eq "s2" "s2"
      then get_service none company "s2"
      else get_service (some manager_user) company "s2")
get_service-assign_manager_example =
    get_service-assign_manager manager_user refl "l9" "s2" "m1" company made "s2"
  where
    made : (assign_manager "l9" "s2" "m1" company).0 ≡ ok (link "l9" "m1" "s2")
    made = unfold assign_manager in refl
