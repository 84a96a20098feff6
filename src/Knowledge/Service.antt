-- ===== src/Knowledge/Service.antt =====
-- internal/service/knowledge_entries.go. The sync service is configured; what it pushes to the devices
-- after a commit is in Sync.Notify. Where a retry finds its event but not its entry, the event that the
-- code returns beside the error is left out, and so are the numbers in the text of a conflict.
use agent_os_backend.Prelude.{
  ℕ, String, Bool, true, false, ◌&&◌, ◌||◌, Option, none, some, List, ◌==◌, ◌!=◌, nat_eq, string_eq,
  if◌then◌else◌, trim_space,
}
use agent_os_backend.Prelude.Int.{pos}
use agent_os_backend.Errors.{
  Result, ok, err, message, wrapped, record_not_found, sync_idempotency_conflict,
  knowledge_entry_not_found, knowledge_entry_deleted, knowledge_entry_conflict,
}
use agent_os_backend.Db.{
  Exec, ◌>>=◌, ◌>>◌, pure, raise, lift, attempt, wrapping, fail_if, transaction, zoom,
}
use agent_os_backend.Json.{Json, JsonMap, text, number, instant, object, empty, member}
use agent_os_backend.Sync.Rows
use agent_os_backend.Sync.Rows.{SyncEvent}
use agent_os_backend.Sync.Repo
use agent_os_backend.Sync.Service
use agent_os_backend.Knowledge.Rows.{UserKnowledgeEntry, Tables}
use agent_os_backend.Knowledge.Repo.{get_by_entry_id, create, update_active, tombstone}

-- sha256 in hexadecimal digits, and the JSON of a slice of texts
pub record Externals : Type 0 where
  pub sha256_hex : String → String
  pub texts_json : Option (List String) → Json

pub record KnowledgeEntryInput : Type 0 where
  pub entry_id : String
  pub title : String
  pub content_markdown : String
  pub summary : String
  pub tags : Option (List String)
  pub metadata : Option JsonMap
  pub source_uri : String
  pub client_event_id : String
  pub base_version : Option ℕ

-- uuid.New() of the row, the time of its write, and what the recorded event takes from outside
pub record Stamps : Type 0 where
  pub id : ℕ
  pub now : ℕ
  pub event : Service.Fresh

-- the entry and the event that a call returns
pub record Written : Type 0 where
  pub entry : UserKnowledgeEntry
  pub event : SyncEvent

-- a call on the sync log in the same session
abbrev pub on_sync : {A : Type 0} → Exec Rows.Tables A → Exec Tables A
on_sync m = zoom (λ t. t.sync) (λ s t. record t { sync = s }) m

unfoldable pub or_not_found : {A : Type 0} → Result A → Exec Tables A
or_not_found (ok a) = pure a
or_not_found (err record_not_found) = raise knowledge_entry_not_found
or_not_found (err e) = raise e

unfoldable pub get_entry : ℕ → String → Bool → Exec Tables UserKnowledgeEntry
unfolding or_not_found
get_entry user_id entry_id include_deleted =
    attempt (get_by_entry_id user_id (trim_space entry_id) include_deleted) >>= or_not_found

unfoldable pub validate_knowledge_input : KnowledgeEntryInput → Bool → Result (Unit {0})
validate_knowledge_input input require_entry_id =
    if require_entry_id && trim_space input.entry_id == ""
    then err (message "entry_id is required")
    else if trim_space input.title == ""
    then err (message "title is required")
    else if trim_space input.content_markdown == ""
    then err (message "content_markdown is required")
    else ok tt

unfoldable pub validate_knowledge_base_version : Option ℕ → ℕ → Result (Unit {0})
validate_knowledge_base_version none current = ok tt
validate_knowledge_base_version (some base) current =
    if base != current
    then err (wrapped "base_version does not match current version" knowledge_entry_conflict)
    else ok tt

-- idempotentKnowledgeReplay once the entry is looked up
unfoldable pub replayed : SyncEvent → Result UserKnowledgeEntry → Exec Tables (Option Written)
unfolding or_not_found
replayed event found = do
  entry ← or_not_found found
  pure (some (record { entry = entry; event = event }))

-- … once the event is looked up, whose error is not told from "none"
unfoldable pub replay_of :
    ℕ → String → String → String → Result SyncEvent → Exec Tables (Option Written)
unfolding replayed
replay_of user_id device_id entry_id operation (err e) = pure none
replay_of user_id device_id entry_id operation (ok existing) =
    if existing.object_type != "knowledge"
      || existing.object_id != entry_id
      || existing.operation != operation
      || existing.source_device_id != device_id
    then raise sync_idempotency_conflict
    else attempt (get_by_entry_id user_id entry_id true) >>= replayed existing

unfoldable pub idempotent_knowledge_replay :
    ℕ → String → String → String → String → Exec Tables (Option Written)
unfolding replay_of
idempotent_knowledge_replay user_id device_id entry_id operation client_event_id =
    if client_event_id == ""
    then pure none
    else attempt (on_sync (Repo.get_event_by_client_event_id user_id client_event_id))
      >>= replay_of user_id device_id entry_id operation

abbrev pub or_empty_map : Option JsonMap → JsonMap
or_empty_map none = empty
or_empty_map (some m) = m

-- the member deleted_at, which only a deleted entry has
unfoldable pub deleted_member : Option ℕ → JsonMap
deleted_member none = empty
deleted_member (some at) = member "deleted_at" (instant at) empty

module _ (x : Externals) (s : Stamps) (user_id : ℕ) (device_id : String) where
  unfoldable pub knowledge_entry_payload : UserKnowledgeEntry → JsonMap
  knowledge_entry_payload e = member "object_id" (text e.entry_id) (
      member "entry_id" (text e.entry_id) (
        member "title" (text e.title) (
          member "content_markdown" (text e.content_markdown) (
            member "summary" (text e.summary) (
              member "tags" (x.texts_json e.tags) (
                member "metadata" (object e.metadata) (
                  member "source_uri" (text e.source_uri) (
                    member "status" (text e.status) (
                      member "version" (number (pos e.version)) (
                        member "content_hash" (text e.content_hash) (
                          member "updated_by_device_id" (text e.updated_by_device_id) (
                            member "updated_at" (instant e.updated_at)
                              (deleted_member e.deleted_at)))))))))))))

  unfoldable pub record_knowledge_event :
      UserKnowledgeEntry → String → String → Exec Tables SyncEvent
  unfolding knowledge_entry_payload
  record_knowledge_event e operation client_event_id = on_sync (
      Service.record_envelope s.event (record {
        user_id = user_id;
        source_device_id = device_id;
        object_type = "knowledge";
        object_id = e.entry_id;
        operation = operation;
        client_event_id = client_event_id;
        payload = knowledge_entry_payload e;
      }))

  -- the end of each transaction: the row is read back and its event recorded
  unfoldable pub read_and_record : String → String → String → Exec Tables Written
  unfolding record_knowledge_event
  read_and_record entry_id operation client_event_id = do
    current ← get_by_entry_id user_id entry_id true
    event ← record_knowledge_event current operation client_event_id
    pure (record { entry = current; event = event })

  unfoldable pub entry_of : String → KnowledgeEntryInput → UserKnowledgeEntry
  entry_of entry_id input = record {
    id = s.id;
    created_at = s.now;
    updated_at = s.now;
    user_id = user_id;
    entry_id = entry_id;
    title = trim_space input.title;
    content_markdown = input.content_markdown;
    summary = input.summary;
    tags = input.tags;
    metadata = or_empty_map input.metadata;
    source_uri = input.source_uri;
    status = "active";
    version = 1;
    content_hash = x.sha256_hex input.content_markdown;
    deleted_at = none;
    updated_by_device_id = device_id;
  }

  -- the transactions
  unfoldable pub write_created : String → KnowledgeEntryInput → Exec Tables Written
  unfolding entry_of read_and_record
  write_created entry_id input = transaction (
      wrapping "create knowledge entry" (create (entry_of entry_id input))
      >> wrapping "get created knowledge entry" (get_by_entry_id user_id entry_id true)
      >>= λ created. record_knowledge_event created "created" input.client_event_id >>= λ event.
          pure (record { entry = created; event = event }))

  unfoldable pub write_updated : String → KnowledgeEntryInput → Exec Tables Written
  unfolding entry_of read_and_record
  write_updated entry_id input = transaction (
      wrapping "update knowledge entry" (update_active s.now (entry_of entry_id input))
      >> read_and_record entry_id "updated" input.client_event_id)

  unfoldable pub write_deleted : String → String → UserKnowledgeEntry → Exec Tables Written
  unfolding read_and_record or_not_found
  write_deleted entry_id client_event_id existing = transaction (
      attempt (tombstone user_id entry_id device_id (x.sha256_hex existing.content_markdown) s.now)
      >>= or_not_found
      >> read_and_record entry_id "deleted" client_event_id)

  unfoldable pub create_or_replayed :
      String → KnowledgeEntryInput → Option Written → Exec Tables Written
  unfolding write_created
  create_or_replayed entry_id input (some written) = pure written
  create_or_replayed entry_id input none = write_created entry_id input

  unfoldable pub create_entry : KnowledgeEntryInput → Exec Tables Written
  unfolding create_or_replayed idempotent_knowledge_replay validate_knowledge_input
  create_entry input = do
    lift (validate_knowledge_input input true)
    let entry_id = trim_space input.entry_id
    replay ← idempotent_knowledge_replay user_id device_id entry_id "created" input.client_event_id
    create_or_replayed entry_id input replay

  -- the checks of UpdateEntry and DeleteEntry before the transaction
  unfoldable pub check_current : String → Option ℕ → Exec Tables UserKnowledgeEntry
  unfolding or_not_found validate_knowledge_base_version
  check_current entry_id base_version = do
    found ← attempt (get_by_entry_id user_id entry_id true)
    existing ← or_not_found found
    fail_if (existing.status == "deleted") knowledge_entry_deleted
    lift (validate_knowledge_base_version base_version existing.version)
    pure existing

  unfoldable pub update_or_replayed :
      String → KnowledgeEntryInput → Option Written → Exec Tables Written
  unfolding write_updated check_current
  update_or_replayed entry_id input (some written) = pure written
  update_or_replayed entry_id input none =
      check_current entry_id input.base_version >> write_updated entry_id input

  unfoldable pub update_entry : String → KnowledgeEntryInput → Exec Tables Written
  unfolding update_or_replayed idempotent_knowledge_replay validate_knowledge_input
  update_entry raw_id input = do
    let entry_id = trim_space raw_id
    fail_if (entry_id == "") (message "entry_id is required")
    lift (validate_knowledge_input input false)
    replay ← idempotent_knowledge_replay user_id device_id entry_id "updated" input.client_event_id
    update_or_replayed entry_id input replay

  unfoldable pub delete_or_replayed :
      String → String → Option ℕ → Option Written → Exec Tables Written
  unfolding write_deleted check_current
  delete_or_replayed entry_id client_event_id base_version (some written) = pure written
  delete_or_replayed entry_id client_event_id base_version none =
      check_current entry_id base_version >>= write_deleted entry_id client_event_id

  unfoldable pub delete_entry : String → String → Option ℕ → Exec Tables Written
  unfolding delete_or_replayed idempotent_knowledge_replay
  delete_entry raw_id client_event_id base_version = do
    let entry_id = trim_space raw_id
    fail_if (entry_id == "") (message "entry_id is required")
    replay ← idempotent_knowledge_replay user_id device_id entry_id "deleted" client_event_id
    delete_or_replayed entry_id client_event_id base_version replay
