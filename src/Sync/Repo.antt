-- ===== src/Sync/Repo.antt =====
-- internal/repository/sync_repo.go, with the unique indexes of migrations/006 and 007.
use agent_os_backend.Prelude.{
  ℕ, ◌+◌, String, Bool, ◌&&◌, ◌||◌, Option, none, some, List, [], ◌∷◌, ◌++◌, leb, ltb, ◌==◌, ◌!=◌,
  nat_eq, string_eq, if◌then◌else◌, take,
}
use agent_os_backend.Errors.{ok, err, record_not_found, duplicate_key}
use agent_os_backend.Db.{Exec, ◌>>=◌, ◌>>◌, pure, raise, select, statement, transaction}
use agent_os_backend.Table.{find, first, filter, any, update, upsert, delete, count, sort_by}
use agent_os_backend.Sync.Rows.{SyncEvent, SyncCursor, Tables}

-- a row that the unique indexes do not allow beside `e`
unfoldable pub conflicts : SyncEvent → SyncEvent → Bool
conflicts e x =
    x.id == e.id
    || x.user_id == e.user_id && x.sequence == e.sequence
    || x.user_id == e.user_id && x.client_event_id == e.client_event_id && e.client_event_id != ""

unfoldable pub create_event : SyncEvent → Exec Tables (Unit {0})
create_event e = statement λ t.
    if any (conflicts e) t.events
    then err duplicate_key
    else ok (tt, record t { events = t.events ++ e ∷ [] })

unfoldable pub since : ℕ → ℕ → SyncEvent → Bool
since user_id sequence e = e.user_id == user_id && ltb sequence e.sequence

-- ORDER BY sequence ASC
unfoldable pub event_before : SyncEvent → SyncEvent → Bool
event_before a b = leb a.sequence b.sequence

unfoldable pub get_events_since : ℕ → ℕ → ℕ → Exec Tables (List SyncEvent)
get_events_since user_id sequence limit =
    select λ t. ok (take limit (sort_by event_before (filter (since user_id sequence) t.events)))

unfoldable pub sent_as : ℕ → String → SyncEvent → Bool
sent_as user_id client_event_id e = e.user_id == user_id && e.client_event_id == client_event_id

unfoldable pub get_event_by_client_event_id : ℕ → String → Exec Tables SyncEvent
get_event_by_client_event_id user_id client_event_id =
    if client_event_id == ""
    then raise record_not_found
    else select λ t. first (sent_as user_id client_event_id) t.events

-- INSERT … ON CONFLICT DO NOTHING of the first number
unfoldable pub seed_sequence : ℕ → ℕ → Exec Tables (Unit {0})
seed_sequence user_id now = statement λ t.
    if any (λ s. s.user_id == user_id) t.sequences
    then ok (tt, t)
    else ok (
      tt,
      record t {
        sequences =
            t.sequences ++ record { user_id = user_id; next_sequence = 1; updated_at = now } ∷ [];
      },
    )

unfoldable pub advance_sequence : ℕ → ℕ → ℕ → Exec Tables (Unit {0})
advance_sequence user_id next now = statement λ t. ok (
  tt,
  record t {
    sequences =
        update (λ s. s.user_id == user_id)
          (λ s. record s { next_sequence = next; updated_at = now }) t.sequences;
  },
)

unfoldable pub get_next_sequence : ℕ → ℕ → Exec Tables ℕ
get_next_sequence user_id now = transaction do
  seed_sequence user_id now
  seq ← select (λ t. first (λ s. s.user_id == user_id) t.sequences)
  advance_sequence user_id (seq.next_sequence + 1) now
  pure seq.next_sequence

unfoldable pub cursor_at : ℕ → String → SyncCursor → Bool
cursor_at user_id device_id c = c.user_id == user_id && c.device_id == device_id

-- a device without a cursor has seen nothing
unfoldable pub or_start : ℕ → String → Option SyncCursor → SyncCursor
or_start user_id device_id (some c) = c
or_start user_id device_id none = record {
  user_id = user_id;
  device_id = device_id;
  last_synced_sequence = 0;
  updated_at = 0;
}

unfoldable pub get_cursor : ℕ → String → Exec Tables SyncCursor
unfolding or_start
get_cursor user_id device_id =
    select λ t. ok (or_start user_id device_id (find (cursor_at user_id device_id) t.cursors))

unfoldable pub save_cursor : SyncCursor → Exec Tables (Unit {0})
save_cursor c =
    statement
      λ t. ok (tt, record t { cursors = upsert (cursor_at c.user_id c.device_id) c t.cursors })

unfoldable pub update_cursor : ℕ → ℕ → String → ℕ → Exec Tables (Unit {0})
update_cursor now user_id device_id sequence = do
  cursor ← get_cursor user_id device_id
  save_cursor (record cursor {
    last_synced_sequence =
        if ltb sequence cursor.last_synced_sequence then cursor.last_synced_sequence else sequence;
    updated_at = now;
  })

unfoldable pub cleanup_old_events : ℕ → Exec Tables ℕ
cleanup_old_events before = statement λ t.
    let old = λ (e : SyncEvent). ltb e.timestamp before in
    ok (count old t.events, record t { events = delete old t.events })
