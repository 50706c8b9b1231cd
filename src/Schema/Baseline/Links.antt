-- ===== src/Schema/Baseline/Links.antt =====
-- The other tables of alembic/versions/dd0913759ae6_baseline.py.
use iot_server.Prelude.{false, List, [], ◌∷◌}
use iot_server.Schema.{
  uuid, auto_string, date_time, boolean, integer, numeric, priority, primary_key, unique_constraint,
  foreign_key, nullable, required, Create, create_table, create_index,
}

abbrev pub create_application_service : List Create
create_application_service =
    create_table (record {
      name = "application_service";
      columns =
          (required "id" uuid)
          ∷ (required "created_at" date_time)
          ∷ (required "updated_at" date_time)
          ∷ (required "application_id" uuid)
          ∷ (required "service_id" uuid)
          ∷ [];
      constraints =
          (foreign_key "application_id" "application" "id")
          ∷ (foreign_key "service_id" "service" "id")
          ∷ (primary_key "id")
          ∷ (unique_constraint ("application_id" ∷ "service_id" ∷ []))
          ∷ [];
    })
    ∷ create_index "ix_application_service_id" "application_service" ("id" ∷ []) false
    ∷ []

abbrev pub create_device_service : List Create
create_device_service =
    create_table (record {
      name = "device_service";
      columns =
          (required "id" uuid)
          ∷ (required "created_at" date_time)
          ∷ (required "updated_at" date_time)
          ∷ (required "device_id" uuid)
          ∷ (required "service_id" uuid)
          ∷ [];
      constraints =
          (foreign_key "device_id" "device" "id")
          ∷ (foreign_key "service_id" "service" "id")
          ∷ (primary_key "id")
          ∷ (unique_constraint ("device_id" ∷ "service_id" ∷ []))
          ∷ [];
    })
    ∷ create_index "ix_device_service_id" "device_service" ("id" ∷ []) false
    ∷ []

abbrev pub create_manager_service : List Create
create_manager_service =
    create_table (record {
      name = "manager_service";
      columns =
          (required "id" uuid)
          ∷ (required "created_at" date_time)
          ∷ (required "updated_at" date_time)
          ∷ (required "manager_id" uuid)
          ∷ (required "service_id" uuid)
          ∷ [];
      constraints =
          (foreign_key "manager_id" "manager" "id")
          ∷ (foreign_key "service_id" "service" "id")
          ∷ (primary_key "id")
          ∷ (unique_constraint ("manager_id" ∷ "service_id" ∷ []))
          ∷ [];
    })
    ∷ create_index "ix_manager_service_id" "manager_service" ("id" ∷ []) false
    ∷ []

abbrev pub create_role : List Create
create_role =
    create_table (record {
      name = "role";
      columns =
          (required "id" uuid)
          ∷ (required "created_at" date_time)
          ∷ (required "updated_at" date_time)
          ∷ (required "name" auto_string)
          ∷ (nullable "description" auto_string)
          ∷ (required "service_id" uuid)
          ∷ (required "is_active" boolean)
          ∷ [];
      constraints =
          (foreign_key "service_id" "service" "id")
          ∷ (primary_key "id")
          ∷ (unique_constraint ("name" ∷ "service_id" ∷ []))
          ∷ [];
    })
    ∷ create_index "ix_role_id" "role" ("id" ∷ []) false
    ∷ []

abbrev pub create_user_service : List Create
create_user_service =
    create_table (record {
      name = "user_service";
      columns =
          (required "id" uuid)
          ∷ (required "created_at" date_time)
          ∷ (required "updated_at" date_time)
          ∷ (required "user_id" uuid)
          ∷ (required "service_id" uuid)
          ∷ (required "is_active" boolean)
          ∷ [];
      constraints =
          (foreign_key "service_id" "service" "id")
          ∷ (foreign_key "user_id" "user" "id")
          ∷ (primary_key "id")
          ∷ (unique_constraint ("user_id" ∷ "service_id" ∷ []))
          ∷ [];
    })
    ∷ create_index "ix_user_service_id" "user_service" ("id" ∷ []) false
    ∷ []

abbrev pub create_ecosystem_ticket : List Create
create_ecosystem_ticket =
    create_table (record {
      name = "ecosystem_ticket";
      columns =
          (required "id" uuid)
          ∷ (required "created_at" date_time)
          ∷ (required "updated_at" date_time)
          ∷ (required "title" auto_string)
          ∷ (nullable "description" auto_string)
          ∷ (required "manager_service_id" uuid)
          ∷ (required "status_id" integer)
          ∷ (required "priority" priority)
          ∷ [];
      constraints =
          (foreign_key "manager_service_id" "manager_service" "id")
          ∷ (foreign_key "status_id" "ticket_status" "id")
          ∷ (primary_key "id")
          ∷ [];
    })
    ∷ create_index "ix_ecosystem_ticket_id" "ecosystem_ticket" ("id" ∷ []) false
    ∷ []

abbrev pub create_payment : List Create
create_payment =
    create_table (record {
      name = "payment";
      columns =
          (required "id" uuid)
          ∷ (required "created_at" date_time)
          ∷ (required "updated_at" date_time)
          ∷ (required "user_service_id" uuid)
          ∷ (required "subscription_type_id" uuid)
          ∷ (required "expires_at" date_time)
          ∷ [];
      constraints =
          (foreign_key "subscription_type_id" "subscription_type" "id")
          ∷ (foreign_key "user_service_id" "user_service" "id")
          ∷ (primary_key "id")
          ∷ [];
    })
    ∷ create_index "ix_payment_id" "payment" ("id" ∷ []) false
    ∷ []

abbrev pub create_role_permission : List Create
create_role_permission =
    create_table (record {
      name = "role_permission";
      columns =
          (required "id" uuid)
          ∷ (required "created_at" date_time)
          ∷ (required "updated_at" date_time)
          ∷ (required "role_id" uuid)
          ∷ (required "can_read" boolean)
          ∷ (required "can_write" boolean)
          ∷ (required "can_delete" boolean)
          ∷ (required "can_administer" boolean)
          ∷ [];
      constraints =
          (foreign_key "role_id" "role" "id")
          ∷ (primary_key "id")
          ∷ (unique_constraint ("role_id" ∷ []))
          ∷ [];
    })
    ∷ create_index "ix_role_permission_id" "role_permission" ("id" ∷ []) false
    ∷ []

abbrev pub create_user_role : List Create
create_user_role =
    create_table (record {
      name = "user_role";
      columns =
          (required "id" uuid)
          ∷ (required "created_at" date_time)
          ∷ (required "updated_at" date_time)
          ∷ (required "user_id" uuid)
          ∷ (required "role_id" uuid)
          ∷ [];
      constraints =
          (foreign_key "role_id" "role" "id")
          ∷ (foreign_key "user_id" "user" "id")
          ∷ (primary_key "id")
          ∷ (unique_constraint ("user_id" ∷ "role_id" ∷ []))
          ∷ [];
    })
    ∷ create_index "ix_user_role_id" "user_role" ("id" ∷ []) false
    ∷ []

abbrev pub create_payment_history : List Create
create_payment_history =
    create_table (record {
      name = "payment_history";
      columns =
          (required "id" uuid)
          ∷ (required "created_at" date_time)
          ∷ (required "updated_at" date_time)
          ∷ (required "payment_id" uuid)
          ∷ (required "deposit_id" auto_string)
          ∷ (nullable "amount" (numeric 12 2))
          ∷ (required "period_start" date_time)
          ∷ (required "period_end" date_time)
          ∷ [];
      constraints = (foreign_key "payment_id" "payment" "id") ∷ (primary_key "id") ∷ [];
    })
    ∷ create_index "ix_payment_history_id" "payment_history" ("id" ∷ []) false
    ∷ []

abbrev pub create_service_ticket : List Create
create_service_ticket =
    create_table (record {
      name = "service_ticket";
      columns =
          (required "id" uuid)
          ∷ (required "created_at" date_time)
          ∷ (required "updated_at" date_time)
          ∷ (required "title" auto_string)
          ∷ (nullable "description" auto_string)
          ∷ (required "user_role_id" uuid)
          ∷ (required "status_id" integer)
          ∷ (required "service_id" uuid)
          ∷ (required "priority" priority)
          ∷ [];
      constraints =
          (foreign_key "service_id" "service" "id")
          ∷ (foreign_key "status_id" "ticket_status" "id")
          ∷ (foreign_key "user_role_id" "user_role" "id")
          ∷ (primary_key "id")
          ∷ [];
    })
    ∷ create_index "ix_service_ticket_id" "service_ticket" ("id" ∷ []) false
    ∷ []
