-- ===== src/Sync/Service.antt =====
-- internal/service/sync.go. The notification of the user's other devices is the hub's business:
-- a call here returns the event that RecordEnvelope then hands to it.
use agent_os_backend.Prelude.{ℕ, String, ◌||◌, List, ◌!=◌, string_eq, if◌then◌else◌}
use agent_os_backend.Prelude.Int.{ℤ, pos, leb_ℤ, ltb_ℤ, pos_part}
use agent_os_backend.Errors.{Result, ok, err, sync_idempotency_conflict}
use agent_os_backend.Db.{Exec, ◌>>=◌, ◌>>◌, pure, lift, attempt, wrapping}
use agent_os_backend.Json.{JsonMap}
use agent_os_backend.Sync.Contract.{build_sync_event_type, sync_schema_version}
use agent_os_backend.Sync.Rows.{SyncEvent, Tables}
use agent_os_backend.Sync.Repo

pub record SyncEnvelope : Type 0 where
  pub user_id : ℕ
  pub source_device_id : String
  pub object_type : String
  pub object_id : String
  pub operation : String
  pub client_event_id : String
  pub payload : JsonMap

-- uuid.New() for the row, and the two readings of the clock
pub record Fresh : Type 0 where
  pub id : ℕ
  pub reserved_at : ℕ
  pub timestamp : ℕ

unfoldable pub validate_idempotent_replay : SyncEvent → SyncEnvelope → Result SyncEvent
validate_idempotent_replay existing envelope =
    if existing.object_type != envelope.object_type
      || existing.object_id != envelope.object_id
      || existing.operation != envelope.operation
      || existing.source_device_id != envelope.source_device_id
    then err sync_idempotency_conflict
    else ok existing

unfoldable pub new_event : Fresh → SyncEnvelope → String → ℕ → SyncEvent
new_event fresh envelope event_type sequence = record {
  id = fresh.id;
  user_id = envelope.user_id;
  device_id = envelope.source_device_id;
  event_type = event_type;
  schema_version = sync_schema_version;
  object_type = envelope.object_type;
  object_id = envelope.object_id;
  operation = envelope.operation;
  source_device_id = envelope.source_device_id;
  client_event_id = envelope.client_event_id;
  payload = envelope.payload;
  timestamp = fresh.timestamp;
  sequence = sequence;
}

unfoldable pub append_event : Fresh → SyncEnvelope → String → Exec Tables SyncEvent
append_event fresh envelope event_type = do
  seq ← wrapping "get next sequence" (Repo.get_next_sequence envelope.user_id fresh.reserved_at)
  let event = new_event fresh envelope event_type seq
  wrapping "create sync event" (Repo.create_event event)
  pure event

-- after the look-up of the client's event id; an error of that look-up is not told from "none"
unfoldable pub replay_or_append :
    Fresh → SyncEnvelope → String → Result SyncEvent → Exec Tables SyncEvent
replay_or_append fresh envelope event_type (ok existing) =
    lift (validate_idempotent_replay existing envelope)
replay_or_append fresh envelope event_type (err e) = append_event fresh envelope event_type

-- with a client event id, an event that the client has sent before is looked up
unfoldable pub record_typed : Fresh → SyncEnvelope → String → Exec Tables SyncEvent
unfolding replay_or_append
record_typed fresh envelope event_type =
    if envelope.client_event_id != ""
    then attempt (Repo.get_event_by_client_event_id envelope.user_id envelope.client_event_id)
      >>= replay_or_append fresh envelope event_type
    else append_event fresh envelope event_type

unfoldable pub record_envelope : Fresh → SyncEnvelope → Exec Tables SyncEvent
unfolding record_typed
record_envelope fresh envelope = do
  event_type ← lift (build_sync_event_type envelope.object_type envelope.operation)
  record_typed fresh envelope event_type

unfoldable pub page_limit : ℤ → ℕ
page_limit limit = if leb_ℤ limit (pos 0) || ltb_ℤ (pos 500) limit then 100 else pos_part limit

unfoldable pub get_events_after : ℕ → ℕ → ℤ → Exec Tables (List SyncEvent)
get_events_after user_id after limit = Repo.get_events_since user_id after (page_limit limit)

unfoldable pub get_events : ℕ → String → ℤ → Exec Tables (List SyncEvent)
get_events user_id device_id limit = do
  cursor ← wrapping "get cursor" (Repo.get_cursor user_id device_id)
  get_events_after user_id cursor.last_synced_sequence limit

unfoldable pub ack_events : ℕ → ℕ → String → ℕ → Exec Tables (Unit {0})
ack_events now user_id device_id last_sequence =
    Repo.update_cursor now user_id device_id last_sequence

-- `cutoff` is the time that AddDate puts the retention days before now.
unfoldable pub cleanup_old_events : ℕ → Exec Tables ℕ
cleanup_old_events cutoff = Repo.cleanup_old_events cutoff
