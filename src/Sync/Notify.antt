-- ===== src/Sync/Notify.antt =====
-- RecordEvent and RecordEnvelope with the notification of the user's other devices
-- (internal/service/sync.go). `encode` is encoding/json on the message, and the milliseconds of a
-- timestamp are its nanoseconds divided.
use agent_os_backend.Prelude.{ℕ, ◌/◌, String, Option, none, some, ◌==◌, string_eq, if◌then◌else◌}
use agent_os_backend.Errors.{Result, ok, err}
use agent_os_backend.Db.{Db}
use agent_os_backend.Json.{Json, JsonMap, text, empty, member}
use agent_os_backend.Hub.State.{Hub, send_to_user_except_device}
use agent_os_backend.Sync.Rows.{SyncEvent, Tables}
use agent_os_backend.Sync.Service.{Fresh, SyncEnvelope, record_envelope}

pub record SyncEventMsg : Type 0 where
  pub event_type : String
  pub schema_version : ℕ
  pub object_type : String
  pub object_id : String
  pub operation : String
  pub source_device_id : String
  pub client_event_id : String
  pub sequence : ℕ
  pub timestamp : ℕ
  pub payload : JsonMap

unfoldable pub message_of : SyncEvent → SyncEventMsg
message_of e = record {
  event_type = e.event_type;
  schema_version = e.schema_version;
  object_type = e.object_type;
  object_id = e.object_id;
  operation = e.operation;
  source_device_id = e.source_device_id;
  client_event_id = e.client_event_id;
  sequence = e.sequence;
  timestamp = e.timestamp / 1000000;
  payload = e.payload;
}

-- payload["object_id"].(string)
unfoldable pub text_or_empty : Json → String
text_or_empty (text value) = value
text_or_empty _ = ""

unfoldable pub object_id_of : JsonMap → String
unfolding text_or_empty
object_id_of empty = ""
object_id_of (member key value rest) =
    let later = object_id_of rest in if key == "object_id" then text_or_empty value else later

-- what a call leaves: the database, and the hub or a panic of it
abbrev pub Notified : Type 0
Notified = Result SyncEvent × Db Tables × Result (Option Hub)

module _ (encode : SyncEventMsg → String) where
  unfoldable pub notify_devices : ℕ → String → SyncEvent → Option Hub → Result (Option Hub)
  unfolding message_of
  notify_devices user_id source_device_id event none = ok none
  notify_devices user_id source_device_id event (some hub) =
      elim (send_to_user_except_device user_id source_device_id (encode (message_of event)) hub) [
        | ok after ↦ ok (some after)
        | err e ↦ err e
      ]

  unfoldable pub after_record : SyncEnvelope → Option Hub → Result SyncEvent × Db Tables → Notified
  unfolding notify_devices
  after_record envelope hub (err e, d) = (err e, d, ok hub)
  after_record envelope hub (ok event, d) =
      (ok event, d, notify_devices envelope.user_id envelope.source_device_id event hub)

  unfoldable pub record_and_notify : Fresh → SyncEnvelope → Option Hub → Db Tables → Notified
  unfolding after_record
  record_and_notify fresh envelope hub d =
      after_record envelope hub (record_envelope fresh envelope d)

  unfoldable pub record_event :
      Fresh → ℕ → String → String → String → JsonMap → Option Hub → Db Tables → Notified
  unfolding record_and_notify object_id_of
  record_event fresh user_id device_id event_type action payload hub d =
      record_and_notify fresh
        (record {
          user_id = user_id;
          source_device_id = device_id;
          object_type = event_type;
          object_id = object_id_of payload;
          operation = action;
          client_event_id = "";
          payload = payload;
        })
        hub d
