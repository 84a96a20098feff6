-- ===== src/Governance/Rows.antt =====
-- The tables of the governance plane: internal/model/models.go and migrations/025. Instants are
-- nanoseconds, and 0 is Go's zero time; a UUID is a number, and 0 is uuid.Nil. The column
-- `updated_at`, which the library writes and no code here reads, is left out.
use agent_os_backend.Prelude.{ℕ, String, Option, List, []}
use agent_os_backend.Prelude.Int.{ℤ}
use agent_os_backend.Json.{JsonMap}

pub record CapabilityDefinition : Type 0 where
  pub id : ℕ
  pub created_at : ℕ
  pub key : String
  pub name : String
  pub description : String
  pub risk_level : String
  pub status : String
  pub metadata : JsonMap

pub record PolicyRule : Type 0 where
  pub id : ℕ
  pub created_at : ℕ
  pub name : String
  pub description : String
  pub capability_key : String
  pub subject_type : String
  pub subject_id : String
  pub actor_user_id : Option ℕ
  pub risk_level : String
  pub effect : String
  pub priority : ℤ
  pub status : String
  pub conditions : JsonMap
  pub metadata : JsonMap

pub record PolicyDecision : Type 0 where
  pub id : ℕ
  pub created_at : ℕ
  pub actor_user_id : Option ℕ
  pub actor_device_id : String
  pub subject_type : String
  pub subject_id : String
  pub capability_key : String
  pub risk_level : String
  pub decision : String
  pub reason : String
  pub policy_rule_id : Option ℕ
  pub kill_switch_id : Option ℕ
  pub context : JsonMap
  pub decided_at : ℕ

pub record ApprovalReceipt : Type 0 where
  pub id : ℕ
  pub created_at : ℕ
  pub policy_decision_id : ℕ
  pub actor_user_id : ℕ
  pub subject_type : String
  pub subject_id : String
  pub capability_key : String
  pub decision : String
  pub token_hash : String
  pub status : String
  pub expires_at : ℕ
  pub consumed_at : Option ℕ
  pub consumed_by : String
  pub metadata : JsonMap

pub record KillSwitch : Type 0 where
  pub id : ℕ
  pub created_at : ℕ
  pub scope_type : String
  pub scope_id : String
  pub reason : String
  pub status : String
  pub expires_at : Option ℕ
  pub created_by : Option ℕ
  pub metadata : JsonMap

pub record GovernanceScanResult : Type 0 where
  pub id : ℕ
  pub created_at : ℕ
  pub subject_type : String
  pub subject_id : String
  pub scanner : String
  pub severity : String
  pub status : String
  pub message : String
  pub details : JsonMap
  pub resolved_at : Option ℕ
  pub resolved_by : Option ℕ

pub record Tables : Type 0 where
  pub capabilities : List CapabilityDefinition
  pub rules : List PolicyRule
  pub decisions : List PolicyDecision
  pub switches : List KillSwitch
  pub receipts : List ApprovalReceipt
  pub scans : List GovernanceScanResult

-- The database with no row.
abbrev pub no_rows : Tables
no_rows = record {
  capabilities = [];
  rules = [];
  decisions = [];
  switches = [];
  receipts = [];
  scans = [];
}

-- What an INSERT of a new row takes from outside: uuid.New() and the time of `created_at`.
pub record Fresh : Type 0 where
  pub id : ℕ
  pub at : ℕ
