-- ===== src/Schema/Baseline/Accounts.antt =====
-- The first tables of alembic/versions/dd0913759ae6_baseline.py.
use iot_server.Prelude.{true, false, List, [], ◌∷◌}
use iot_server.Schema.{
  uuid, auto_string, date_time, boolean, integer, numeric, primary_key, unique_constraint,
  foreign_key, nullable, required, Create, create_table, create_index,
}

abbrev pub create_audit_log : List Create
create_audit_log =
    create_table (record {
      name = "audit_log";
      columns =
          (required "id" uuid)
          ∷ (required "created_at" date_time)
          ∷ (required "updated_at" date_time)
          ∷ (required "account_id" uuid)
          ∷ (required "account_type" auto_string)
          ∷ (required "action" auto_string)
          ∷ (required "resource_type" auto_string)
          ∷ (nullable "resource_id" uuid)
          ∷ (nullable "details" auto_string)
          ∷ (nullable "ip_address" auto_string)
          ∷ [];
      constraints = (primary_key "id") ∷ [];
    })
    ∷ create_index "ix_audit_log_account_id" "audit_log" ("account_id" ∷ []) false
    ∷ create_index "ix_audit_log_id" "audit_log" ("id" ∷ []) false
    ∷ create_index "ix_audit_log_resource_id" "audit_log" ("resource_id" ∷ []) false
    ∷ []

abbrev pub create_device : List Create
create_device =
    create_table (record {
      name = "device";
      columns =
          (required "id" uuid)
          ∷ (required "created_at" date_time)
          ∷ (required "updated_at" date_time)
          ∷ (required "name" auto_string)
          ∷ (nullable "brand" auto_string)
          ∷ (nullable "model" auto_string)
          ∷ (nullable "serial_number" auto_string)
          ∷ (nullable "ip" auto_string)
          ∷ (nullable "mac" auto_string)
          ∷ (nullable "encryption_key" auto_string)
          ∷ (required "is_active" boolean)
          ∷ (nullable "xmss_public_root" auto_string)
          ∷ (required "xmss_current_index" integer)
          ∷ (required "xmss_tree_height" integer)
          ∷ [];
      constraints =
          (primary_key "id")
          ∷ (unique_constraint ("mac" ∷ []))
          ∷ (unique_constraint ("serial_number" ∷ []))
          ∷ [];
    })
    ∷ create_index "ix_device_id" "device" ("id" ∷ []) false
    ∷ []

abbrev pub create_non_critical_personal_data : List Create
create_non_critical_personal_data =
    create_table (record {
      name = "non_critical_personal_data";
      columns =
          (required "id" uuid)
          ∷ (required "created_at" date_time)
          ∷ (required "updated_at" date_time)
          ∷ (required "first_name" auto_string)
          ∷ (required "last_name" auto_string)
          ∷ (nullable "second_last_name" auto_string)
          ∷ (nullable "phone" auto_string)
          ∷ (nullable "address" auto_string)
          ∷ (nullable "city" auto_string)
          ∷ (nullable "state" auto_string)
          ∷ (nullable "postal_code" auto_string)
          ∷ (nullable "birth_date" date_time)
          ∷ (required "is_active" boolean)
          ∷ [];
      constraints = (primary_key "id") ∷ [];
    })
    ∷ create_index "ix_non_critical_personal_data_id" "non_critical_personal_data" ("id" ∷ []) false
    ∷ []

abbrev pub create_subscription_type : List Create
create_subscription_type =
    create_table (record {
      name = "subscription_type";
      columns =
          (required "id" uuid)
          ∷ (required "created_at" date_time)
          ∷ (required "updated_at" date_time)
          ∷ (required "type" auto_string)
          ∷ (nullable "cost" (numeric 10 2))
          ∷ [];
      constraints = (primary_key "id") ∷ (unique_constraint ("type" ∷ [])) ∷ [];
    })
    ∷ create_index "ix_subscription_type_id" "subscription_type" ("id" ∷ []) false
    ∷ []

abbrev pub create_ticket_status : List Create
create_ticket_status =
    create_table (record {
      name = "ticket_status";
      columns =
          (required "id" integer)
          ∷ (required "name" auto_string)
          ∷ (nullable "description" auto_string)
          ∷ [];
      constraints = (primary_key "id") ∷ (unique_constraint ("name" ∷ [])) ∷ [];
    })
    ∷ []

abbrev pub create_sensitive_data : List Create
create_sensitive_data =
    create_table (record {
      name = "sensitive_data";
      columns =
          (required "id" uuid)
          ∷ (required "created_at" date_time)
          ∷ (required "updated_at" date_time)
          ∷ (required "non_critical_data_id" uuid)
          ∷ (required "email" auto_string)
          ∷ (required "password_hash" auto_string)
          ∷ (nullable "curp" auto_string)
          ∷ (nullable "rfc" auto_string)
          ∷ [];
      constraints =
          (foreign_key "non_critical_data_id" "non_critical_personal_data" "id")
          ∷ (primary_key "id")
          ∷ (unique_constraint ("curp" ∷ []))
          ∷ (unique_constraint ("email" ∷ []))
          ∷ (unique_constraint ("non_critical_data_id" ∷ []))
          ∷ (unique_constraint ("rfc" ∷ []))
          ∷ [];
    })
    ∷ create_index "ix_sensitive_data_id" "sensitive_data" ("id" ∷ []) false
    ∷ []

abbrev pub create_administrator : List Create
create_administrator =
    create_table (record {
      name = "administrator";
      columns =
          (required "id" uuid)
          ∷ (required "created_at" date_time)
          ∷ (required "updated_at" date_time)
          ∷ (required "sensitive_data_id" uuid)
          ∷ (nullable "xmss_public_root" auto_string)
          ∷ (required "xmss_current_index" integer)
          ∷ (required "xmss_tree_height" integer)
          ∷ (required "is_master" boolean)
          ∷ [];
      constraints =
          (foreign_key "sensitive_data_id" "sensitive_data" "id") ∷ (primary_key "id") ∷ [];
    })
    ∷ create_index "ix_administrator_id" "administrator" ("id" ∷ []) false
    ∷ create_index "ix_administrator_sensitive_data_id" "administrator" ("sensitive_data_id" ∷ [])
        true
    ∷ []

abbrev pub create_manager : List Create
create_manager =
    create_table (record {
      name = "manager";
      columns =
          (required "id" uuid)
          ∷ (required "created_at" date_time)
          ∷ (required "updated_at" date_time)
          ∷ (required "sensitive_data_id" uuid)
          ∷ (nullable "xmss_public_root" auto_string)
          ∷ (required "xmss_current_index" integer)
          ∷ (required "xmss_tree_height" integer)
          ∷ [];
      constraints =
          (foreign_key "sensitive_data_id" "sensitive_data" "id") ∷ (primary_key "id") ∷ [];
    })
    ∷ create_index "ix_manager_id" "manager" ("id" ∷ []) false
    ∷ create_index "ix_manager_sensitive_data_id" "manager" ("sensitive_data_id" ∷ []) true
    ∷ []

abbrev pub create_user : List Create
create_user =
    create_table (record {
      name = "user";
      columns =
          (required "id" uuid)
          ∷ (required "created_at" date_time)
          ∷ (required "updated_at" date_time)
          ∷ (required "sensitive_data_id" uuid)
          ∷ (nullable "xmss_public_root" auto_string)
          ∷ (required "xmss_current_index" integer)
          ∷ (required "xmss_tree_height" integer)
          ∷ [];
      constraints =
          (foreign_key "sensitive_data_id" "sensitive_data" "id") ∷ (primary_key "id") ∷ [];
    })
    ∷ create_index "ix_user_id" "user" ("id" ∷ []) false
    ∷ create_index "ix_user_sensitive_data_id" "user" ("sensitive_data_id" ∷ []) true
    ∷ []

abbrev pub create_application : List Create
create_application =
    create_table (record {
      name = "application";
      columns =
          (required "id" uuid)
          ∷ (required "created_at" date_time)
          ∷ (required "updated_at" date_time)
          ∷ (required "name" auto_string)
          ∷ (required "version" auto_string)
          ∷ (required "url" auto_string)
          ∷ (required "description" auto_string)
          ∷ (required "api_key" auto_string)
          ∷ (nullable "port" integer)
          ∷ (required "administrator_id" uuid)
          ∷ (required "is_active" boolean)
          ∷ (nullable "xmss_public_root" auto_string)
          ∷ (required "xmss_current_index" integer)
          ∷ (required "xmss_tree_height" integer)
          ∷ [];
      constraints =
          (foreign_key "administrator_id" "administrator" "id")
          ∷ (primary_key "id")
          ∷ (unique_constraint ("name" ∷ []))
          ∷ [];
    })
    ∷ create_index "ix_application_api_key" "application" ("api_key" ∷ []) true
    ∷ create_index "ix_application_id" "application" ("id" ∷ []) false
    ∷ []

abbrev pub create_service : List Create
create_service =
    create_table (record {
      name = "service";
      columns =
          (required "id" uuid)
          ∷ (required "created_at" date_time)
          ∷ (required "updated_at" date_time)
          ∷ (required "name" auto_string)
          ∷ (nullable "description" auto_string)
          ∷ (required "administrator_id" uuid)
          ∷ (required "is_active" boolean)
          ∷ [];
      constraints =
          (foreign_key "administrator_id" "administrator" "id")
          ∷ (primary_key "id")
          ∷ (unique_constraint ("name" ∷ []))
          ∷ [];
    })
    ∷ create_index "ix_service_id" "service" ("id" ∷ []) false
    ∷ []
