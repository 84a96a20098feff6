-- ===== src/Sensitive/Rows.antt =====
-- The tables that confirmations need (internal/model/models.go): the columns of a user that are read
-- here, the confirmations, and the audit log.
use agent_os_backend.Prelude.{ℕ, String, Option, List}
use agent_os_backend.Audit.Rows

pub record User : Type 0 where
  pub id : ℕ
  pub password_hash : String

pub record SensitiveOperationConfirmation : Type 0 where
  pub id : ℕ
  pub user_id : ℕ
  pub device_id : String
  pub operation : String
  pub token_hash : String
  pub expires_at : ℕ
  pub used_at : Option ℕ
  pub consumed_by : String

pub record Tables : Type 0 where
  pub users : List User
  pub confirmations : List SensitiveOperationConfirmation
  pub audit : Rows.Tables
