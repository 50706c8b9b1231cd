-- ===== src/Schema/Baseline.antt =====
-- alembic/versions/dd0913759ae6_baseline.py: the statements of `upgrade` and `downgrade`.
pub mod Accounts
pub mod Links
use iot_server.Prelude.{String, List, [], ◌∷◌, ◌++◌}
use iot_server.Schema.{Create, Drop, drop_index, drop_table}
use iot_server.Schema.Baseline.Accounts.{
  create_audit_log, create_device, create_non_critical_personal_data, create_subscription_type,
  create_ticket_status, create_sensitive_data, create_administrator, create_manager, create_user,
  create_application, create_service,
}
use iot_server.Schema.Baseline.Links.{
  create_application_service, create_device_service, create_manager_service, create_role,
  create_user_service, create_ecosystem_ticket, create_payment, create_role_permission,
  create_user_role, create_payment_history, create_service_ticket,
}

-- The names that the imports bind.
abbrev pub imported : List String
imported = "Sequence" ∷ "Union" ∷ "op" ∷ "sa" ∷ []

unfoldable pub upgrade : List Create
upgrade =
    create_audit_log ++ create_device ++ create_non_critical_personal_data
    ++ create_subscription_type ++ create_ticket_status ++ create_sensitive_data
    ++ create_administrator ++ create_manager ++ create_user ++ create_application ++ create_service
    ++ create_application_service ++ create_device_service ++ create_manager_service ++ create_role
    ++ create_user_service ++ create_ecosystem_ticket ++ create_payment ++ create_role_permission
    ++ create_user_role ++ create_payment_history ++ create_service_ticket

unfoldable pub downgrade : List Drop
downgrade =
    drop_index "ix_service_ticket_id" "service_ticket"
    ∷ drop_table "service_ticket"
    ∷ drop_index "ix_payment_history_id" "payment_history"
    ∷ drop_table "payment_history"
    ∷ drop_index "ix_user_role_id" "user_role"
    ∷ drop_table "user_role"
    ∷ drop_index "ix_role_permission_id" "role_permission"
    ∷ drop_table "role_permission"
    ∷ drop_index "ix_payment_id" "payment"
    ∷ drop_table "payment"
    ∷ drop_index "ix_ecosystem_ticket_id" "ecosystem_ticket"
    ∷ drop_table "ecosystem_ticket"
    ∷ drop_index "ix_user_service_id" "user_service"
    ∷ drop_table "user_service"
    ∷ drop_index "ix_role_id" "role"
    ∷ drop_table "role"
    ∷ drop_index "ix_manager_service_id" "manager_service"
    ∷ drop_table "manager_service"
    ∷ drop_index "ix_device_service_id" "device_service"
    ∷ drop_table "device_service"
    ∷ drop_index "ix_application_service_id" "application_service"
    ∷ drop_table "application_service"
    ∷ drop_index "ix_service_id" "service"
    ∷ drop_table "service"
    ∷ drop_index "ix_application_id" "application"
    ∷ drop_index "ix_application_api_key" "application"
    ∷ drop_table "application"
    ∷ drop_index "ix_user_sensitive_data_id" "user"
    ∷ drop_index "ix_user_id" "user"
    ∷ drop_table "user"
    ∷ drop_index "ix_manager_sensitive_data_id" "manager"
    ∷ drop_index "ix_manager_id" "manager"
    ∷ drop_table "manager"
    ∷ drop_index "ix_administrator_sensitive_data_id" "administrator"
    ∷ drop_index "ix_administrator_id" "administrator"
    ∷ drop_table "administrator"
    ∷ drop_index "ix_sensitive_data_id" "sensitive_data"
    ∷ drop_table "sensitive_data"
    ∷ drop_table "ticket_status"
    ∷ drop_index "ix_subscription_type_id" "subscription_type"
    ∷ drop_table "subscription_type"
    ∷ drop_index "ix_non_critical_personal_data_id" "non_critical_personal_data"
    ∷ drop_table "non_critical_personal_data"
    ∷ drop_index "ix_device_id" "device"
    ∷ drop_table "device"
    ∷ drop_index "ix_audit_log_resource_id" "audit_log"
    ∷ drop_index "ix_audit_log_id" "audit_log"
    ∷ drop_index "ix_audit_log_account_id" "audit_log"
    ∷ drop_table "audit_log"
    ∷ []
