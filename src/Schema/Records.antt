-- ===== src/Schema/Records.antt =====
-- The classes of app/database/model.py for tickets, payments and the audit log, and that of
-- app/domain/webhook/models.py.
use iot_server.Prelude.{[], ◌∷◌, ◌++◌}
use iot_server.Schema.{
  uuid, auto_string, date_time, boolean, integer, numeric, priority, Class, one, many, column,
  optional, unique, indexed, primary, references, limited, default_to, base_fields,
}

unfoldable pub ticket_status_class : Class
ticket_status_class = record {
  table_name = "ticket_status";
  fields =
      default_to "None" (primary (column "id" integer))
      ∷ unique (column "name" auto_string)
      ∷ default_to "None" (optional (column "description" auto_string))
      ∷ [];
  unique_together = [];
  relationships =
      (many "service_tickets" "service_ticket" "status")
      ∷ (many "ecosystem_tickets" "ecosystem_ticket" "status")
      ∷ [];
}

unfoldable pub service_ticket_class : Class
service_ticket_class = record {
  table_name = "service_ticket";
  fields =
      base_fields
      ++ (column "title" auto_string
          ∷ default_to "None" (optional (column "description" auto_string))
          ∷ references "user_role" "id" (column "user_role_id" uuid)
          ∷ references "ticket_status" "id" (column "status_id" integer)
          ∷ references "service" "id" (column "service_id" uuid)
          ∷ default_to "Priority.medium" (column "priority" priority)
          ∷ []);
  unique_together = [];
  relationships =
      (one "user_role" "user_role" "service_tickets")
      ∷ (one "status" "ticket_status" "service_tickets")
      ∷ (one "service" "service" "service_tickets")
      ∷ [];
}

unfoldable pub ecosystem_ticket_class : Class
ecosystem_ticket_class = record {
  table_name = "ecosystem_ticket";
  fields =
      base_fields
      ++ (column "title" auto_string
          ∷ default_to "None" (optional (column "description" auto_string))
          ∷ references "manager_service" "id" (column "manager_service_id" uuid)
          ∷ references "ticket_status" "id" (column "status_id" integer)
          ∷ default_to "Priority.medium" (column "priority" priority)
          ∷ []);
  unique_together = [];
  relationships =
      (one "manager_service" "manager_service" "ecosystem_tickets")
      ∷ (one "status" "ticket_status" "ecosystem_tickets")
      ∷ [];
}

unfoldable pub subscription_type_class : Class
subscription_type_class = record {
  table_name = "subscription_type";
  fields =
      base_fields
      ++ (unique (column "type" auto_string)
          ∷ default_to "Decimal(0.00)" (optional (column "cost" (numeric 10 2)))
          ∷ []);
  unique_together = [];
  relationships = (many "payments" "payment" "subscription_type") ∷ [];
}

unfoldable pub user_service_class : Class
user_service_class = record {
  table_name = "user_service";
  fields =
      base_fields
      ++ (references "user" "id" (column "user_id" uuid)
          ∷ references "service" "id" (column "service_id" uuid)
          ∷ default_to "False" (column "is_active" boolean)
          ∷ []);
  unique_together = ("user_id" ∷ "service_id" ∷ []) ∷ [];
  relationships =
      (one "user" "user" "user_services")
      ∷ (one "service" "service" "user_services")
      ∷ (many "payments" "payment" "user_service")
      ∷ [];
}

unfoldable pub payment_class : Class
payment_class = record {
  table_name = "payment";
  fields =
      base_fields
      ++ (references "user_service" "id" (column "user_service_id" uuid)
          ∷ references "subscription_type" "id" (column "subscription_type_id" uuid)
          ∷ column "expires_at" date_time
          ∷ []);
  unique_together = [];
  relationships =
      (one "user_service" "user_service" "payments")
      ∷ (one "subscription_type" "subscription_type" "payments")
      ∷ (many "history" "payment_history" "payment")
      ∷ [];
}

unfoldable pub payment_history_class : Class
payment_history_class = record {
  table_name = "payment_history";
  fields =
      base_fields
      ++ (references "payment" "id" (column "payment_id" uuid)
          ∷ column "deposit_id" auto_string
          ∷ default_to "Decimal(0.00)" (optional (column "amount" (numeric 12 2)))
          ∷ column "period_start" date_time
          ∷ column "period_end" date_time
          ∷ []);
  unique_together = [];
  relationships = (one "payment" "payment" "history") ∷ [];
}

unfoldable pub audit_log_class : Class
audit_log_class = record {
  table_name = "audit_log";
  fields =
      base_fields
      ++ (indexed (column "account_id" uuid)
          ∷ column "account_type" auto_string
          ∷ column "action" auto_string
          ∷ column "resource_type" auto_string
          ∷ default_to "None" (indexed (optional (column "resource_id" uuid)))
          ∷ default_to "None" (optional (column "details" auto_string))
          ∷ default_to "None" (optional (column "ip_address" auto_string))
          ∷ []);
  unique_together = [];
  relationships = [];
}

unfoldable pub webhook_endpoint_class : Class
webhook_endpoint_class = record {
  table_name = "webhook_endpoint";
  fields =
      base_fields
      ++ (indexed (column "owner_id" uuid)
          ∷ limited "max_length" 2048 (column "url" auto_string)
          ∷ column "event_types" auto_string
          ∷ column "secret" auto_string
          ∷ default_to "True" (column "is_active" boolean)
          ∷ []);
  unique_together = [];
  relationships = [];
}
