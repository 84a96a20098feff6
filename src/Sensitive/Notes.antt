-- ===== src/Sensitive/Notes.antt =====
-- Noting a call in the audit log (recordAudit of internal/service/sensitive_operation.go) changes nothing
-- but the audit log.
use agent_os_backend.Prelude.{ℕ, String}
use agent_os_backend.Json.{JsonMap}
use agent_os_backend.Db.Keeps.{Keeps}
use agent_os_backend.Db.Refusals.{Sound, sound_rules}
use agent_os_backend.Audit.Rows
use agent_os_backend.Audit.Repo.{append_hash_chained, create}
use agent_os_backend.Audit.Service.{RecordAuditEventInput, record_event}
use agent_os_backend.Audit.Service
use agent_os_backend.Sensitive.Rows.{Tables}
use agent_os_backend.Sensitive.Service.{Externals, Noted, record_audit}

record_event-Sound :
    (x : Service.Externals) (id now : ℕ) (input : RecordAuditEventInput)
    → Sound (record_event x id now input)
unfolding record_event append_hash_chained create
record_event-Sound x id now input = search sound_rules depth 12

module _ (x : Externals) (n : Noted) (user_id : ℕ) (device_id action operation outcome : String)
    (metadata : JsonMap) where
  pub record_audit-Sound :
      Sound (record_audit x n user_id device_id action operation outcome metadata)
  unfolding record_audit
  record_audit-Sound = record {
    after = λ d.
        (record_event-Sound x.audit n.id n.now _).after
          (record { tables = d.tables.audit; issued = d.issued; refuses = d.refuses });
  }

  pub record_audit-Keeps :
      (P : Tables → Type 0)
      → ((t : Tables) (a : Rows.Tables) → P t → P (record t { audit = a }))
      → Keeps P (record_audit x n user_id device_id action operation outcome metadata)
  unfolding record_audit
  record_audit-Keeps P k = record { after = λ d h. k d.tables _ h }
