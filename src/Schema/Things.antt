-- ===== src/Schema/Things.antt =====
-- The classes of app/database/model.py for services, applications, devices and roles.
use iot_server.Prelude.{[], ◌∷◌, ◌++◌}
use iot_server.Schema.{
  uuid, auto_string, boolean, integer, Class, one, many, column, optional, unique, indexed,
  references, default_to, made_by, base_fields,
}

unfoldable pub service_class : Class
service_class = record {
  table_name = "service";
  fields =
      base_fields
      ++ (unique (column "name" auto_string)
          ∷ default_to "None" (optional (column "description" auto_string))
          ∷ references "administrator" "id" (column "administrator_id" uuid)
          ∷ default_to "None"
              (references "tenant" "id" (indexed (optional (column "tenant_id" uuid))))
          ∷ default_to "True" (column "is_active" boolean)
          ∷ []);
  unique_together = [];
  relationships =
      (one "tenant" "tenant" "services")
      ∷ (one "registered_by" "administrator" "manager_services")
      ∷ (many "manager_services" "manager_service" "service")
      ∷ (many "application_services" "application_service" "service")
      ∷ (many "device_services" "device_service" "service")
      ∷ (many "roles" "role" "service")
      ∷ (many "service_tickets" "service_ticket" "service")
      ∷ (many "user_services" "user_service" "service")
      ∷ [];
}

unfoldable pub manager_service_class : Class
manager_service_class = record {
  table_name = "manager_service";
  fields =
      base_fields
      ++ (references "manager" "id" (column "manager_id" uuid)
          ∷ references "service" "id" (column "service_id" uuid)
          ∷ []);
  unique_together = ("manager_id" ∷ "service_id" ∷ []) ∷ [];
  relationships =
      (one "manager" "manager" "manager_services")
      ∷ (one "service" "service" "manager_services")
      ∷ (many "ecosystem_tickets" "ecosystem_ticket" "manager_service")
      ∷ [];
}

unfoldable pub application_class : Class
application_class = record {
  table_name = "application";
  fields =
      base_fields
      ++ (unique (column "name" auto_string)
          ∷ column "version" auto_string
          ∷ column "url" auto_string
          ∷ column "description" auto_string
          ∷ made_by "get_api_key" (indexed (unique (column "api_key" auto_string)))
          ∷ default_to "None" (optional (column "port" integer))
          ∷ references "administrator" "id" (column "administrator_id" uuid)
          ∷ default_to "True" (column "is_active" boolean)
          ∷ default_to "None" (optional (column "xmss_public_root" auto_string))
          ∷ default_to "0" (column "xmss_current_index" integer)
          ∷ default_to "4" (column "xmss_tree_height" integer)
          ∷ []);
  unique_together = [];
  relationships =
      (one "registered_by" "administrator" "registered_applications")
      ∷ (many "application_services" "application_service" "application")
      ∷ [];
}

unfoldable pub application_service_class : Class
application_service_class = record {
  table_name = "application_service";
  fields =
      base_fields
      ++ (references "application" "id" (column "application_id" uuid)
          ∷ references "service" "id" (column "service_id" uuid)
          ∷ []);
  unique_together = ("application_id" ∷ "service_id" ∷ []) ∷ [];
  relationships =
      (one "application" "application" "application_services")
      ∷ (one "service" "service" "application_services")
      ∷ [];
}

unfoldable pub device_class : Class
device_class = record {
  table_name = "device";
  fields =
      base_fields
      ++ (column "name" auto_string
          ∷ default_to "None" (optional (column "brand" auto_string))
          ∷ default_to "None" (optional (column "model" auto_string))
          ∷ default_to "None" (unique (optional (column "serial_number" auto_string)))
          ∷ default_to "None" (optional (column "ip" auto_string))
          ∷ default_to "None" (unique (optional (column "mac" auto_string)))
          ∷ default_to "None" (optional (column "encryption_key" auto_string))
          ∷ default_to "True" (column "is_active" boolean)
          ∷ default_to "None" (optional (column "xmss_public_root" auto_string))
          ∷ default_to "0" (column "xmss_current_index" integer)
          ∷ default_to "4" (column "xmss_tree_height" integer)
          ∷ []);
  unique_together = [];
  relationships = (many "device_services" "device_service" "device") ∷ [];
}

unfoldable pub device_service_class : Class
device_service_class = record {
  table_name = "device_service";
  fields =
      base_fields
      ++ (references "device" "id" (column "device_id" uuid)
          ∷ references "service" "id" (column "service_id" uuid)
          ∷ []);
  unique_together = ("device_id" ∷ "service_id" ∷ []) ∷ [];
  relationships =
      (one "device" "device" "device_services") ∷ (one "service" "service" "device_services") ∷ [];
}

unfoldable pub role_class : Class
role_class = record {
  table_name = "role";
  fields =
      base_fields
      ++ (column "name" auto_string
          ∷ default_to "None" (optional (column "description" auto_string))
          ∷ references "service" "id" (column "service_id" uuid)
          ∷ default_to "True" (column "is_active" boolean)
          ∷ []);
  unique_together = ("name" ∷ "service_id" ∷ []) ∷ [];
  relationships =
      (one "service" "service" "roles")
      ∷ (many "user_roles" "user_role" "role")
      ∷ (one "permission" "role_permission" "role")
      ∷ [];
}

unfoldable pub role_permission_class : Class
role_permission_class = record {
  table_name = "role_permission";
  fields =
      base_fields
      ++ (references "role" "id" (unique (column "role_id" uuid))
          ∷ default_to "False" (column "can_read" boolean)
          ∷ default_to "False" (column "can_write" boolean)
          ∷ default_to "False" (column "can_delete" boolean)
          ∷ default_to "False" (column "can_administer" boolean)
          ∷ []);
  unique_together = [];
  relationships = (one "role" "role" "permission") ∷ [];
}

unfoldable pub user_role_class : Class
user_role_class = record {
  table_name = "user_role";
  fields =
      base_fields
      ++ (references "user" "id" (column "user_id" uuid)
          ∷ references "role" "id" (column "role_id" uuid)
          ∷ []);
  unique_together = ("user_id" ∷ "role_id" ∷ []) ∷ [];
  relationships =
      (one "user" "user" "user_roles")
      ∷ (one "role" "role" "user_roles")
      ∷ (many "service_tickets" "service_ticket" "user_role")
      ∷ [];
}
