-- ===== src/Knowledge/Outcomes.antt =====
-- What one call of internal/service/knowledge_entries.go does to the entries of every user.
use agent_os_backend.Prelude.{
  ℕ, String, true, ◌≡◌, none, some, ◌&&◌, ◌||◌, ◌==◌, ◌!=◌, string_eq, Option, In, arith,
}
use agent_os_backend.Errors.{Result, ok, err, record_not_found, sync_idempotency_conflict}
use agent_os_backend.Db.{Exec, attempt, transaction, raise, ◌>>◌, pure}
use agent_os_backend.Db.Keeps.{Keeps, keeps_rules, zoom-Keeps, zoom_within-Keeps, attempt-Keeps}
use agent_os_backend.Db.Triples.{
  Triple, bind-Triple, attempt-Triple, select-Triple, transaction-Triple, pure-Triple, raise-Triple,
  Keeps-Triple, if-Triple,
}
use agent_os_backend.Table.Finding.{first-ok}
use agent_os_backend.Sync.Repo
use agent_os_backend.Knowledge.Rows.{UserKnowledgeEntry, Tables}
use agent_os_backend.Knowledge.Repo.{is_entry, shown, get_by_entry_id}
use agent_os_backend.Knowledge.Service
use agent_os_backend.Knowledge.Service.{
  Externals, KnowledgeEntryInput, Stamps, Written, create_entry, update_entry, delete_entry,
  replayed, replay_of, idempotent_knowledge_replay, record_knowledge_event, read_and_record,
  entry_of, write_created, write_updated, write_deleted, create_or_replayed, update_or_replayed,
  delete_or_replayed, check_current, validate_knowledge_input, on_sync,
  validate_knowledge_base_version,
}
use agent_os_backend.Knowledge.Machine.{Kind, view}
use agent_os_backend.Knowledge.Steps.{Moves, stays, Mine}
use agent_os_backend.Sync.Rows.{SyncEvent}

pub or_not_found-Keeps :
    {A : Type 0} (P : Tables → Type 0) (r : Result A) → Keeps P (Service.or_not_found r)
unfolding Service.or_not_found
or_not_found-Keeps P (ok e) = search keeps_rules
or_not_found-Keeps P (err record_not_found) = search keeps_rules
or_not_found-Keeps P (err _) = search keeps_rules

module _ (user_id : ℕ) (kind : Kind) (entry_id : String) (start : Tables) where
  abbrev pub Same : Tables → Type 0
  Same t = t ≡ start

  -- every entry has stayed or, if it is the one named, made the step
  abbrev pub Moved : Tables → Type 0
  Moved t =
      (u : ℕ) (k : String) → Moves kind (Mine user_id entry_id u k) (view u k start) (view u k t)

  -- … and a row of the name is there
  abbrev pub Read : UserKnowledgeEntry → Tables → Type 0
  Read e t = Moved t × In e t.entries × (is_entry user_id entry_id e ≡ true)

  abbrev pub Done : Written → Tables → Type 0
  Done w t = Read w.entry t

  pub Same-Moved : (t : Tables) → Same t → Moved t
  Same-Moved t h u k = rw h stays

  hit-is_entry :
      (e : UserKnowledgeEntry)
      → (is_entry user_id entry_id e && shown true e) ≡ true
      → is_entry user_id entry_id e ≡ true
  unfolding shown
  hit-is_entry e h = ground arith

  pub looked_after :
      {E : Tables → Type 0}
      → ((t : Tables) → Moved t → E t)
      → Triple Moved Read E (get_by_entry_id user_id entry_id true)
  unfolding get_by_entry_id
  looked_after weaker =
      select-Triple _ (λ t e h k. let (i, g) = first-ok _ t.entries e k in (h, i, hit-is_entry e g))
        weaker

  pub Keeps-Same : {A : Type 0} (m : Exec Tables A) → Keeps Same m → Triple Same (λ _. Same) Same m
  Keeps-Same m k = Keeps-Triple m k (λ _ t h. h) (λ t h. h)

  -- a look-up before the write
  Found : Result UserKnowledgeEntry → Tables → Type 0
  Found (ok e) t = Same t × Read e t
  Found (err e) t = Same t

  look_up : Triple Same Found Same (attempt (get_by_entry_id user_id entry_id true))
  unfolding get_by_entry_id Found
  look_up =
      attempt-Triple _
        (λ t e h k.
          let (i, g) = first-ok _ t.entries e k in (h, (Same-Moved t h, i, hit-is_entry e g)))
        (λ t e h. h)

  or_not_found-Found :
      (r : Result UserKnowledgeEntry)
      → Triple (Found r) (λ e t. Same t × Read e t) Same (Service.or_not_found r)
  unfolding Service.or_not_found Found
  or_not_found-Found (ok e) = pure-Triple e λ t h. h
  or_not_found-Found (err record_not_found) = raise-Triple _ λ t h. h
  or_not_found-Found (err _) = raise-Triple _ λ t h. h

  -- what a retry answers with
  abbrev pub Reply : Option Written → Tables → Type 0
  Reply none t = Same t
  Reply (some w) t = Done w t

  module _ (x : Externals) (s : Stamps) (device_id : String) where
    event-Read :
        (e : UserKnowledgeEntry) (current : UserKnowledgeEntry) (operation client_event_id : String)
        → Keeps
            (Read e)
            (record_knowledge_event x s user_id device_id current operation client_event_id)
    unfolding record_knowledge_event view
    event-Read e current operation client_event_id = zoom-Keeps _ _ _ λ t part h. h

    pub event-Done :
        (e : UserKnowledgeEntry) (operation client_event_id : String)
        → Triple
            (Read e)
            (λ _ t. Read e t)
            (λ _. Unit)
            (record_knowledge_event x s user_id device_id e operation client_event_id)
    event-Done e operation client_event_id =
        Keeps-Triple _ (event-Read e e operation client_event_id) (λ _ t h. h) (λ t h. tt)

    read_and_record-Done :
        (operation client_event_id : String)
        → Triple Moved Done
            (λ _. Unit)
            (read_and_record x s user_id device_id entry_id operation client_event_id)
    unfolding read_and_record
    read_and_record-Done operation client_event_id =
        bind-Triple Read _ _ (looked_after λ t h. tt) λ e.
          bind-Triple (λ _ t. Read e t) _ _ (event-Done e operation client_event_id)
            λ event. pure-Triple _ λ t h. h

    event_looked_up :
        (client_event_id : String)
        → Keeps Same (on_sync (Repo.get_event_by_client_event_id user_id client_event_id))
    unfolding Repo.get_event_by_client_event_id
    event_looked_up client_event_id = zoom_within-Keeps _ _ _ (λ t h. h) λ t h. search keeps_rules

    replayed-Reply :
        (event : SyncEvent) (r : Result UserKnowledgeEntry)
        → Triple (Found r) Reply Same (replayed event r)
    unfolding replayed
    replayed-Reply event r =
        bind-Triple (λ e t. Same t × Read e t) _ _ (or_not_found-Found r)
          λ e. pure-Triple _ λ t h. h.1

    replay_of-Reply :
        (operation : String) (r : Result SyncEvent)
        → Triple Same Reply Same (replay_of user_id device_id entry_id operation r)
    unfolding replay_of
    replay_of-Reply operation (err e) = pure-Triple _ λ t h. h
    replay_of-Reply operation (ok event) =
        if-Triple
          (event.object_type != "knowledge"
            || event.object_id != entry_id
            || event.operation != operation
            || event.source_device_id != device_id)
          (raise sync_idempotency_conflict) _ (λ _. raise-Triple _ λ t h. h)
          λ _. bind-Triple Found _ _ look_up (replayed-Reply event)

    pub replay-Reply :
        (operation client_event_id : String)
        → Triple Same Reply Same
            (idempotent_knowledge_replay user_id device_id entry_id operation client_event_id)
    unfolding idempotent_knowledge_replay
    replay-Reply operation client_event_id =
        if-Triple (client_event_id == "") (pure none) _ (λ _. pure-Triple _ λ t h. h)
          λ _.
            bind-Triple (λ _. Same) _ _
              (Keeps-Same _ (attempt-Keeps _ (event_looked_up client_event_id)))
              (replay_of-Reply operation)

    pub check_current-Same :
        (base_version : Option ℕ)
        → Triple Same (λ _. Same) Same (check_current x s user_id device_id entry_id base_version)
    unfolding check_current get_by_entry_id
    check_current-Same base_version =
        Keeps-Same _ (search (keeps_rules, or_not_found-Keeps) depth 12)

    -- the transaction of a call
    pub written-Done :
        {A : Type 0} (write : Exec Tables A) (operation client_event_id : String)
        → Triple Same (λ _. Moved) (λ _. Unit) write
        → Triple Same Done Same (
            transaction
              (write >> read_and_record x s user_id device_id entry_id operation client_event_id))
    written-Done write operation client_event_id t =
        transaction-Triple _
          (bind-Triple (λ _. Moved) _ _ t λ _. read_and_record-Done operation client_event_id)
          (λ t h. h)
