-- ===== src/Audit/Rows.antt =====
-- The audit table (internal/model/models.go). The columns `created_at` and `updated_at`, which no
-- code here reads, are left out. A sequence is an int64 that grows by one with each row: it is a
-- number without a bound here.
use agent_os_backend.Prelude.{ℕ, String, Option, List, []}
use agent_os_backend.Json.{JsonMap}

pub record AuditEvent : Type 0 where
  pub id : ℕ
  pub actor_user_id : Option ℕ
  pub actor_device_id : String
  pub action : String
  pub resource_type : String
  pub resource_id : String
  pub outcome : String
  pub ip_address : String
  pub user_agent : String
  pub metadata : JsonMap
  pub occurred_at : ℕ
  pub sequence : ℕ
  pub previous_hash : String
  pub event_hash : String
  pub hash_algorithm : String

pub record Tables : Type 0 where
  pub events : List AuditEvent

abbrev pub no_rows : Tables
no_rows = record { events = [] }
