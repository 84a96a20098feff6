-- ===== src/Knowledge/Calls.antt =====
-- CreateEntry, UpdateEntry and DeleteEntry of internal/service/knowledge_entries.go as steps of the state
-- of the entry that they name, and any sequence of them.
use agent_os_backend.Prelude.{
  ℕ, String, false, refl, none, some, Option, ◌==◌, string_eq, nat_eq, trim_space,
}
use agent_os_backend.Errors.{Result, ok, err, message}
use agent_os_backend.Db.{attempt}
use agent_os_backend.Db.Keeps.{Keeps, keeps_rules, lift-Keeps, fail_if-Keeps}
use agent_os_backend.Db.Triples.{
  Triple, attempted-Triple, Keeps-Triple, bind-Triple, attempt_write-Triple, transaction-Triple,
  pure-Triple, insert-Triple, write-Triple, wrapping-Triple,
}
use agent_os_backend.Knowledge.Rows.{UserKnowledgeEntry, Tables}
use agent_os_backend.Knowledge.Repo.{create, update_active, tombstone, bury, rows_or_not_found}
use agent_os_backend.Knowledge.Service
use agent_os_backend.Knowledge.Service.{
  Externals, KnowledgeEntryInput, Stamps, Written, create_entry, update_entry, delete_entry,
  entry_of, write_created, write_updated, write_deleted, create_or_replayed, update_or_replayed,
  delete_or_replayed,
}
use agent_os_backend.Knowledge.Machine.{creation, rewriting, deletion, view}
use agent_os_backend.Knowledge.Steps.{created-Moves, rewritten-Moves, buried-Moves}
use agent_os_backend.Knowledge.Outcomes.{
  Same, Moved, Read, Done, Reply, Same-Moved, looked_after, event-Done, written-Done, replay-Reply,
  check_current-Same, Keeps-Same, or_not_found-Keeps,
}

module _ (user_id : ℕ) (entry_id : String) (start : Tables) where
  module _ (x : Externals) (s : Stamps) (device_id : String) where
    module _ (input : KnowledgeEntryInput) where
      create-Moved :
          Triple
            (Same user_id creation entry_id start)
            (λ _. Moved user_id creation entry_id start)
            (λ _. Unit)
            (create (entry_of x s user_id device_id entry_id input))
      unfolding create entry_of view
      create-Moved =
          insert-Triple _ _ _ _
            (λ t fresh h u k.
              rw (← h) (created-Moves user_id entry_id u k _ t.entries refl refl refl refl fresh))
            (λ t h. tt)

      write_created-Done :
          Triple
            (Same user_id creation entry_id start)
            (Done user_id creation entry_id start)
            (Same user_id creation entry_id start)
            (write_created x s user_id device_id entry_id input)
      unfolding write_created
      write_created-Done =
          transaction-Triple _
            (bind-Triple (Read user_id creation entry_id start) _ _
              (bind-Triple (λ _. Moved user_id creation entry_id start) _ _
                (wrapping-Triple _ _ create-Moved)
                λ _. wrapping-Triple _ _ (looked_after user_id creation entry_id start λ t h. tt))
              λ e.
                bind-Triple (λ _ t. Read user_id creation entry_id start e t) _ _
                  (event-Done user_id creation entry_id start x s device_id e _ _)
                  λ event. pure-Triple _ λ t h. h)
            (λ t h. h)

      create_or_replayed-Done :
          (w : Option Written)
          → Triple
              (Reply user_id creation entry_id start w)
              (Done user_id creation entry_id start)
              (Same user_id creation entry_id start)
              (create_or_replayed x s user_id device_id entry_id input w)
      unfolding create_or_replayed
      create_or_replayed-Done none = write_created-Done
      create_or_replayed-Done (some w) = pure-Triple w λ t h. h

      update-Moved :
          Triple
            (Same user_id rewriting entry_id start)
            (λ _. Moved user_id rewriting entry_id start)
            (λ _. Unit)
            (update_active s.now (entry_of x s user_id device_id entry_id input))
      unfolding update_active entry_of view
      update-Moved =
          write-Triple _ _
            (λ t h u k. rw (← h) (
              rewritten-Moves user_id entry_id u k s.now
                (entry_of x s user_id device_id entry_id input) t.entries))
            (λ t h. tt)

      write_updated-Done :
          Triple
            (Same user_id rewriting entry_id start)
            (Done user_id rewriting entry_id start)
            (Same user_id rewriting entry_id start)
            (write_updated x s user_id device_id entry_id input)
      unfolding write_updated
      write_updated-Done =
          written-Done user_id rewriting entry_id start x s device_id _ _ _
            (wrapping-Triple _ _ update-Moved)

      update_or_replayed-Done :
          (w : Option Written)
          → Triple
              (Reply user_id rewriting entry_id start w)
              (Done user_id rewriting entry_id start)
              (Same user_id rewriting entry_id start)
              (update_or_replayed x s user_id device_id entry_id input w)
      unfolding update_or_replayed
      update_or_replayed-Done none =
          bind-Triple (λ _. Same user_id rewriting entry_id start) _ _
            (check_current-Same user_id rewriting entry_id start x s device_id _)
            λ _. write_updated-Done
      update_or_replayed-Done (some w) = pure-Triple w λ t h. h

    module _ (client_event_id : String) where
      bury-Moved :
          (content_hash : String)
          → Triple
              (Same user_id deletion entry_id start)
              (λ _. Moved user_id deletion entry_id start)
              (Moved user_id deletion entry_id start)
              (attempt (bury user_id entry_id device_id content_hash s.now))
      unfolding bury view
      bury-Moved content_hash =
          attempt_write-Triple _ _
            (λ t h u k.
              rw (← h) (buried-Moves user_id entry_id u k device_id content_hash s.now t.entries))
            (λ t e h. Same-Moved user_id deletion entry_id start t h)

      rows-Moved :
          (r : Result ℕ) → Keeps (Moved user_id deletion entry_id start) (rows_or_not_found r)
      unfolding rows_or_not_found
      rows-Moved (ok rows) = search keeps_rules
      rows-Moved (err e) = search keeps_rules

      tombstone-Moved :
          (content_hash : String)
          → Triple
              (Same user_id deletion entry_id start)
              (λ _. Moved user_id deletion entry_id start)
              (Moved user_id deletion entry_id start)
              (tombstone user_id entry_id device_id content_hash s.now)
      unfolding tombstone
      tombstone-Moved content_hash =
          bind-Triple (λ _. Moved user_id deletion entry_id start) _ _ (bury-Moved content_hash)
            λ r. Keeps-Triple _ (rows-Moved r) (λ _ t h. h) (λ t h. h)

      write_deleted-Done :
          (existing : UserKnowledgeEntry)
          → Triple
              (Same user_id deletion entry_id start)
              (Done user_id deletion entry_id start)
              (Same user_id deletion entry_id start)
              (write_deleted x s user_id device_id entry_id client_event_id existing)
      unfolding write_deleted
      write_deleted-Done existing =
          written-Done user_id deletion entry_id start x s device_id _ _ _ (
            bind-Triple (λ _. Moved user_id deletion entry_id start) _ _
              (attempted-Triple _ (tombstone-Moved _))
              λ r. Keeps-Triple _ (or_not_found-Keeps _ r) (λ _ t h. h) (λ t h. tt))

      delete_or_replayed-Done :
          (base_version : Option ℕ) (w : Option Written)
          → Triple
              (Reply user_id deletion entry_id start w)
              (Done user_id deletion entry_id start)
              (Same user_id deletion entry_id start)
              (delete_or_replayed x s user_id device_id entry_id client_event_id base_version w)
      unfolding delete_or_replayed
      delete_or_replayed-Done base_version none =
          bind-Triple (λ _. Same user_id deletion entry_id start) _ _
            (check_current-Same user_id deletion entry_id start x s device_id base_version)
            write_deleted-Done
      delete_or_replayed-Done base_version (some w) = pure-Triple w λ t h. h

module _ (x : Externals) (s : Stamps) (user_id : ℕ) (device_id : String) (start : Tables) where
  pub create_entry-Done :
      (input : KnowledgeEntryInput)
      → let id = trim_space input.entry_id in
        Triple
          (Same user_id creation id start)
          (Done user_id creation id start)
          (Same user_id creation id start)
          (create_entry x s user_id device_id input)
  unfolding create_entry
  create_entry-Done input =
      let id = trim_space input.entry_id in
      bind-Triple (λ _. Same user_id creation id start) _ _
        (Keeps-Same user_id creation id start _ (lift-Keeps _))
        λ _.
          bind-Triple (Reply user_id creation id start) _ _
            (replay-Reply user_id creation id start x s device_id "created" input.client_event_id)
            (create_or_replayed-Done user_id id start x s device_id input)

  pub update_entry-Done :
      (raw_id : String) (input : KnowledgeEntryInput)
      → let id = trim_space raw_id in
        Triple
          (Same user_id rewriting id start)
          (Done user_id rewriting id start)
          (Same user_id rewriting id start)
          (update_entry x s user_id device_id raw_id input)
  unfolding update_entry
  update_entry-Done raw_id input =
      let id = trim_space raw_id in
      bind-Triple (λ _. Same user_id rewriting id start) _ _
        (Keeps-Same user_id rewriting id start _
          (fail_if-Keeps (id == "") (message "entry_id is required")))
        λ _.
          bind-Triple (λ _. Same user_id rewriting id start) _ _
            (Keeps-Same user_id rewriting id start _
              (lift-Keeps (Service.validate_knowledge_input input false)))
            λ _.
              bind-Triple (Reply user_id rewriting id start) _ _
                (replay-Reply user_id rewriting id start x s device_id "updated"
                  input.client_event_id)
                (update_or_replayed-Done user_id id start x s device_id input)

  pub delete_entry-Done :
      (raw_id client_event_id : String) (base_version : Option ℕ)
      → let id = trim_space raw_id in
        Triple
          (Same user_id deletion id start)
          (Done user_id deletion id start)
          (Same user_id deletion id start)
          (delete_entry x s user_id device_id raw_id client_event_id base_version)
  unfolding delete_entry
  delete_entry-Done raw_id client_event_id base_version =
      let id = trim_space raw_id in
      bind-Triple (λ _. Same user_id deletion id start) _ _
        (Keeps-Same user_id deletion id start _
          (fail_if-Keeps (id == "") (message "entry_id is required")))
        λ _.
          bind-Triple (Reply user_id deletion id start) _ _
            (replay-Reply user_id deletion id start x s device_id "deleted" client_event_id)
            (delete_or_replayed-Done user_id id start x s device_id client_event_id base_version)
