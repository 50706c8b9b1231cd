-- ===== src/Schema/Declared.antt =====
-- The tables that SQLModel.metadata declares, each after those that it refers to.
use iot_server.Prelude.{List, [], ◌∷◌}
use iot_server.Schema.{Class}
use iot_server.Schema.People.{
  non_critical_personal_data_class, sensitive_data_class, tenant_class, administrator_class,
  manager_class, user_class,
}
use iot_server.Schema.Things.{
  service_class, manager_service_class, application_class, application_service_class, device_class,
  device_service_class, role_class, role_permission_class, user_role_class,
}
use iot_server.Schema.Records.{
  ticket_status_class, service_ticket_class, ecosystem_ticket_class, subscription_type_class,
  user_service_class, payment_class, payment_history_class, audit_log_class, webhook_endpoint_class,
}

unfoldable pub declared : List Class
unfolding non_critical_personal_data_class sensitive_data_class tenant_class administrator_class
    manager_class user_class service_class manager_service_class application_class
    application_service_class device_class device_service_class role_class role_permission_class
    user_role_class ticket_status_class service_ticket_class ecosystem_ticket_class
    subscription_type_class user_service_class payment_class payment_history_class audit_log_class
    webhook_endpoint_class
declared =
    non_critical_personal_data_class ∷ sensitive_data_class ∷ tenant_class ∷ administrator_class
    ∷ manager_class ∷ user_class ∷ service_class ∷ manager_service_class ∷ application_class
    ∷ application_service_class ∷ device_class ∷ device_service_class ∷ role_class
    ∷ role_permission_class ∷ user_role_class ∷ ticket_status_class ∷ service_ticket_class
    ∷ ecosystem_ticket_class ∷ subscription_type_class ∷ user_service_class ∷ payment_class
    ∷ payment_history_class ∷ audit_log_class ∷ webhook_endpoint_class ∷ []
