-- ===== src/Examples/Sync.antt =====
-- The theorems on sync at concrete inputs.
use agent_os_backend.Prelude.{
  false, [], refl, inl, arith, ◌<◌, ◌≤◌, nat_eq, string_eq, eq_iff, ◌≡◌, In, ◌∷◌,
}
use agent_os_backend.Db.{Db, select, statement, transaction}
use agent_os_backend.Sync.Rows.{SyncEvent, Tables, no_rows}
use agent_os_backend.Sync.Numbers.{IsSequenced}
use agent_os_backend.Sync.Service.{
  SyncEnvelope, record_envelope, record_typed, append_event, Fresh, new_event, ack_events,
  get_events_after, page_limit,
}
use agent_os_backend.Sync.Contract.{build_sync_event_type, validate_sync_event, operations_of}
use agent_os_backend.Sync.Recording.{record_envelope-IsSequenced}
use agent_os_backend.Sync.Repo.{
  get_event_by_client_event_id, get_next_sequence, seed_sequence, advance_sequence, create_event,
  sent_as, conflicts, get_events_since, update_cursor, get_cursor, save_cursor, since,
}
use agent_os_backend.Table.{find, any, update, sort_by, filter}
use agent_os_backend.Json.{empty}
use agent_os_backend.Prelude.Int.{pos}
use agent_os_backend.Sync.Pulls.{get_events_after-exact}
use agent_os_backend.Sync.Cursors.{ack_events-position, position, later_of}
use agent_os_backend.Sync.Order.{Carries, Recorded, record_envelope-Recorded}
use agent_os_backend.Sync.Retries.{Replays, record_envelope-Replays}

abbrev served : Tables → Db Tables
served t = record { tables = t; issued = 0; refuses = λ _. false }

abbrev edit_note : SyncEnvelope
edit_note = record {
  user_id = 1;
  source_device_id = "phone";
  object_type = "knowledge";
  object_id = "note-1";
  operation = "updated";
  client_event_id = "c-1";
  payload = empty;
}

abbrev fresh : Fresh
fresh = record { id = 10; reserved_at = 4; timestamp = 5 }

abbrev recorded : SyncEvent
recorded = record {
  id = 10;
  user_id = 1;
  device_id = "phone";
  event_type = "knowledge.updated";
  schema_version = 1;
  object_type = "knowledge";
  object_id = "note-1";
  operation = "updated";
  source_device_id = "phone";
  client_event_id = "c-1";
  payload = empty;
  timestamp = 5;
  sequence = 1;
}

no_rows-IsSequenced : IsSequenced no_rows
no_rows-IsSequenced = record {
  numbered = λ e h. elim h [ ];
  one_counter = λ a b h k e. elim h [ ];
  distinct = λ a b h k e n. elim h [ ];
  by_client = λ a b h k e n f. elim h [ ];
}

record_envelope-IsSequenced_example :
    IsSequenced (record_envelope fresh edit_note (served no_rows)).1.tables
record_envelope-IsSequenced_example =
    record_envelope-IsSequenced fresh edit_note (served no_rows) no_rows-IsSequenced

-- the database after the first call
abbrev after : Db Tables
after = (record_envelope fresh edit_note (served no_rows)).1

record_envelope-Recorded_example :
    Carries edit_note recorded × Recorded [] after.tables.events recorded
unfolding record_envelope build_sync_event_type validate_sync_event operations_of record_typed
    get_event_by_client_event_id append_event get_next_sequence seed_sequence advance_sequence
    create_event new_event select statement transaction find any update sent_as conflicts
record_envelope-Recorded_example =
    record_envelope-Recorded fresh edit_note (served no_rows) recorded no_rows-IsSequenced refl

record_envelope-Replays_example : Replays recorded after (record_envelope fresh edit_note after)
unfolding record_envelope build_sync_event_type validate_sync_event operations_of record_typed
    get_event_by_client_event_id append_event get_next_sequence seed_sequence advance_sequence
    create_event new_event select statement transaction find any update sent_as conflicts
record_envelope-Replays_example =
    record_envelope-Replays fresh edit_note after recorded
      (record_envelope-IsSequenced fresh edit_note (served no_rows) no_rows-IsSequenced)
      (inl refl, refl, refl) (λ e. ground (arith, eq_iff "c-1" ""))

get_events_after-exact_example :
    (1 ≤ 500)
    × ((e : SyncEvent)
        → In e (recorded ∷ [])
        → In e after.tables.events × (e.user_id ≡ 1) × (0 < e.sequence))
    × ((e a : SyncEvent)
        → In e (recorded ∷ [])
        → In a after.tables.events
        → a.user_id ≡ 1
        → 0 < a.sequence
        → a.sequence ≤ e.sequence
        → In a (recorded ∷ []))
unfolding record_envelope build_sync_event_type validate_sync_event operations_of record_typed
    get_event_by_client_event_id append_event get_next_sequence seed_sequence advance_sequence
    create_event new_event select statement transaction find any update sent_as conflicts
    get_events_after get_events_since page_limit sort_by filter since
get_events_after-exact_example =
    get_events_after-exact 1 0 (pos 10) after (recorded ∷ [])
      (record_envelope-IsSequenced fresh edit_note (served no_rows) no_rows-IsSequenced) refl

ack_events-position_example :
    position (ack_events 9 1 "tablet" 1 after).1.tables 1 "tablet"
    ≡ later_of 1 (position after.tables 1 "tablet")
unfolding record_envelope build_sync_event_type validate_sync_event operations_of record_typed
    get_event_by_client_event_id append_event get_next_sequence seed_sequence advance_sequence
    create_event new_event select statement transaction find any update sent_as conflicts ack_events
    update_cursor get_cursor save_cursor
ack_events-position_example = ack_events-position 9 1 "tablet" 1 after tt 1 "tablet" refl
