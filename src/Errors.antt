-- ===== src/Errors.antt =====
-- Go's error values. A sentinel (`var Err… = errors.New`) is a constructor, `errors.New` and
-- `fmt.Errorf` without `%w` make a `message`, and with `%w` a `wrapped` error.
use agent_os_backend.Prelude.{String, Bool, true, false}

pub data Error : Type 0 where
  -- gorm.ErrRecordNotFound, gorm.ErrInvalidData, and what the driver reports
  record_not_found invalid_data duplicate_key database : Error
  -- crypto/rand failed
  entropy : Error
  -- internal/service/governance.go and governance_enforcer.go
  invalid_governance_input approval_receipt_invalid : Error
  governance_denied governance_approval_required governance_approval_invalid : Error
  -- internal/service/sync_contract.go
  unsupported_sync_event sync_idempotency_conflict : Error
  -- internal/service/knowledge_entries.go and contacts.go
  knowledge_entry_not_found knowledge_entry_deleted knowledge_entry_conflict : Error
  contact_not_found contact_deleted contact_conflict : Error
  -- internal/service/kb_hub.go
  kb_invalid : Error
  message : String → Error
  wrapped : String → Error → Error

pub data Result {ℓ} (A : Type ℓ) : Type ℓ where
  ok : A → Result A
  err : Error → Result A

abbrev pub is_ok {ℓ} : {A : Type ℓ} → Result A → Bool
is_ok (ok a) = true
is_ok (err e) = false
