-- ===== src/Schema/People.antt =====
-- The classes of app/database/model.py for people and tenants.
use iot_server.Prelude.{List, [], ◌∷◌, ◌++◌}
use iot_server.Schema.{
  uuid, auto_string, date_time, boolean, integer, Field, Class, one, many, column, optional, unique,
  indexed, references, limited, default_to, base_fields,
}

unfoldable pub non_critical_personal_data_class : Class
non_critical_personal_data_class = record {
  table_name = "non_critical_personal_data";
  fields =
      base_fields
      ++ (column "first_name" auto_string
          ∷ column "last_name" auto_string
          ∷ default_to "None" (optional (column "second_last_name" auto_string))
          ∷ default_to "None" (optional (column "phone" auto_string))
          ∷ default_to "None" (optional (column "address" auto_string))
          ∷ default_to "None" (optional (column "city" auto_string))
          ∷ default_to "None" (optional (column "state" auto_string))
          ∷ default_to "None" (optional (column "postal_code" auto_string))
          ∷ default_to "None" (optional (column "birth_date" date_time))
          ∷ default_to "True" (column "is_active" boolean)
          ∷ []);
  unique_together = [];
  relationships = (one "sensitive_data" "sensitive_data" "non_critical_data") ∷ [];
}

unfoldable pub sensitive_data_class : Class
sensitive_data_class = record {
  table_name = "sensitive_data";
  fields =
      base_fields
      ++ (references "non_critical_personal_data" "id" (unique (column "non_critical_data_id" uuid))
          ∷ unique (column "email" auto_string)
          ∷ column "password_hash" auto_string
          ∷ default_to "" (column "password_salt" auto_string)
          ∷ default_to "None" (unique (optional (column "curp" auto_string)))
          ∷ default_to "None" (unique (optional (column "rfc" auto_string)))
          ∷ []);
  unique_together = [];
  relationships =
      (one "non_critical_data" "non_critical_personal_data" "sensitive_data")
      ∷ (one "administrator" "administrator" "sensitive_data")
      ∷ (one "manager" "manager" "sensitive_data")
      ∷ (one "user" "user" "sensitive_data")
      ∷ [];
}

abbrev personal_data_class_fields : List Field
personal_data_class_fields =
    (references "sensitive_data" "id" (indexed (unique (column "sensitive_data_id" uuid))))
    ∷ (default_to "None" (optional (column "xmss_public_root" auto_string)))
    ∷ (default_to "0" (limited "ge" 0 (column "xmss_current_index" integer)))
    ∷ (default_to "4" (limited "le" 20 (limited "ge" 2 (column "xmss_tree_height" integer))))
    ∷ []

unfoldable pub tenant_class : Class
tenant_class = record {
  table_name = "tenant";
  fields =
      base_fields
      ++ (limited "max_length" 255 (unique (column "name" auto_string))
          ∷ default_to "True" (column "is_active" boolean)
          ∷ []);
  unique_together = [];
  relationships =
      (many "administrators" "administrator" "tenant") ∷ (many "services" "service" "tenant") ∷ [];
}

unfoldable pub administrator_class : Class
administrator_class = record {
  table_name = "administrator";
  fields =
      base_fields
      ++ personal_data_class_fields
      ++ (default_to "False" (column "is_master" boolean)
          ∷ default_to "None"
              (references "tenant" "id" (indexed (optional (column "tenant_id" uuid))))
          ∷ []);
  unique_together = [];
  relationships =
      (one "sensitive_data" "sensitive_data" "administrator")
      ∷ (one "tenant" "tenant" "administrators")
      ∷ (many "manager_services" "service" "registered_by")
      ∷ (many "registered_applications" "application" "registered_by")
      ∷ [];
}

unfoldable pub manager_class : Class
manager_class = record {
  table_name = "manager";
  fields = base_fields ++ personal_data_class_fields ++ ([]);
  unique_together = [];
  relationships =
      (one "sensitive_data" "sensitive_data" "manager")
      ∷ (many "manager_services" "manager_service" "manager")
      ∷ [];
}

unfoldable pub user_class : Class
user_class = record {
  table_name = "user";
  fields = base_fields ++ personal_data_class_fields ++ ([]);
  unique_together = [];
  relationships =
      (one "sensitive_data" "sensitive_data" "user")
      ∷ (many "user_roles" "user_role" "user")
      ∷ (many "user_services" "user_service" "user")
      ∷ [];
}
