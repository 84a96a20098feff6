-- ===== src/Sync/Rows.antt =====
-- The tables of sync (internal/model/models.go). A
-- sequence is a uint64 that grows by one with each event: it is a number without a bound here.
use agent_os_backend.Prelude.{ℕ, String, List, []}
use agent_os_backend.Json.{JsonMap}

pub record SyncEvent : Type 0 where
  pub id : ℕ
  pub user_id : ℕ
  pub device_id : String
  pub event_type : String
  pub schema_version : ℕ
  pub object_type : String
  pub object_id : String
  pub operation : String
  pub source_device_id : String
  pub client_event_id : String
  pub payload : JsonMap
  pub timestamp : ℕ
  pub sequence : ℕ

pub record SyncCursor : Type 0 where
  pub user_id : ℕ
  pub device_id : String
  pub last_synced_sequence : ℕ
  pub updated_at : ℕ

pub record SyncSequence : Type 0 where
  pub user_id : ℕ
  pub next_sequence : ℕ
  pub updated_at : ℕ

pub record Tables : Type 0 where
  pub events : List SyncEvent
  pub cursors : List SyncCursor
  pub sequences : List SyncSequence

abbrev pub no_rows : Tables
no_rows = record { events = []; cursors = []; sequences = [] }
