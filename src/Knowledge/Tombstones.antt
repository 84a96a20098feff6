-- ===== src/Knowledge/Tombstones.antt =====
-- What becomes of the row of a deleted entry (internal/service/knowledge_entries.go).
use agent_os_backend.Prelude.{
  ℕ, String, false, ◌≡◌, refl, inl, inr, Option, none, some, List, [], ◌∷◌, arith, Bool, ◌==◌,
  string_eq, Bool-cases,
}
use agent_os_backend.Errors.{Result, ok, err}
use agent_os_backend.Db.{Db}
use agent_os_backend.Db.Keeps.{
  Keeps, keeps_rules, insert-Keeps, write-Keeps, statement-Keeps, transaction-Keeps, zoom-Keeps,
}
use agent_os_backend.Table.{find, update}
use agent_os_backend.Table.Finding.{find-append_some}
use agent_os_backend.Knowledge.Rows.{UserKnowledgeEntry, Tables}
use agent_os_backend.Knowledge.Repo.{
  is_entry, is_active_entry, get_by_entry_id, create, update_active, rewritten, bury, buried,
  tombstone, rows_or_not_found,
}
use agent_os_backend.Knowledge.Service.{
  Externals, KnowledgeEntryInput, Stamps, Written, create_entry, update_entry, delete_entry,
  replayed, replay_of, idempotent_knowledge_replay, record_knowledge_event, read_and_record,
  write_created, write_updated, write_deleted, create_or_replayed, update_or_replayed,
  delete_or_replayed, check_current,
}
use agent_os_backend.Knowledge.Machine.{
  Caller, Call, create_call, update_call, delete_call, perform, perform_all,
}
use agent_os_backend.Knowledge.Outcomes.{or_not_found-Keeps}

-- An UPDATE of other rows leaves the row that a condition finds.
find-update_missed :
    {A : Type 0} (p q : A → Bool) (f : A → A) (xs : List A) (e : A)
    → find p xs ≡ some e
    → q e ≡ false
    → ((a : A) → p (f a) ≡ p a)
    → find p (update q f xs) ≡ some e
unfolding find update
find-update_missed p q f [] e h miss same = cc
find-update_missed p q f (x ∷ xs) e h miss same = elim (Bool-cases (p x)) [
  | inl hit ↦
      let s : x ≡ e = ground arith in
      let other : q x ≡ false = rw s miss in rw (other, hit) (ground arith)
  | inr away ↦
      let rest = find-update_missed p q f xs e (ground arith) miss same in
      elim (Bool-cases (q x)) [ inl k ↦ rw (k, same x, away) rest | inr k ↦ rw (k, away) rest ]
]

module _ (u : ℕ) (k : String) (e : UserKnowledgeEntry) (dead : (e.status == "active") ≡ false) where
  -- the row that the name finds
  abbrev pub Stays : Tables → Type 0
  Stays t = find (is_entry u k) t.entries ≡ some e

  inactive : (user_id : ℕ) (entry_id : String) → is_active_entry user_id entry_id e ≡ false
  unfolding is_active_entry
  inactive user_id entry_id = elim (Bool-cases (is_entry user_id entry_id e)) [
    | inl h ↦ rw (h, dead) refl
    | inr h ↦ rw h refl
  ]

  create-Stays : (new : UserKnowledgeEntry) → Keeps Stays (create new)
  unfolding create
  create-Stays new = insert-Keeps _ _ _ _ λ t _ h. find-append_some (is_entry u k) t.entries _ e h

  update_active-Stays : (now : ℕ) (new : UserKnowledgeEntry) → Keeps Stays (update_active now new)
  unfolding update_active rewritten is_entry
  update_active-Stays now new = write-Keeps _ _ λ t h.
      find-update_missed (is_entry u k) _ _ t.entries e h (inactive new.user_id new.entry_id)
        λ a. refl

  bury-Stays :
      (user_id : ℕ) (entry_id device_id content_hash : String) (at : ℕ)
      → Keeps Stays (bury user_id entry_id device_id content_hash at)
  unfolding bury buried is_entry
  bury-Stays user_id entry_id device_id content_hash at = statement-Keeps _ λ t h.
      find-update_missed (is_entry u k) _ _ t.entries e h (inactive user_id entry_id) λ a. refl

  rows-Stays : (r : Result ℕ) → Keeps Stays (rows_or_not_found r)
  unfolding rows_or_not_found
  rows-Stays (ok n) = search keeps_rules
  rows-Stays (err z) = search keeps_rules

  tombstone-Stays :
      (user_id : ℕ) (entry_id device_id content_hash : String) (at : ℕ)
      → Keeps Stays (tombstone user_id entry_id device_id content_hash at)
  unfolding tombstone
  tombstone-Stays user_id entry_id device_id content_hash at =
      search (keeps_rules, bury-Stays, rows-Stays)

  look-Stays :
      (user_id : ℕ) (entry_id : String) (all : Bool)
      → Keeps Stays (get_by_entry_id user_id entry_id all)
  unfolding get_by_entry_id
  look-Stays user_id entry_id all = search keeps_rules

  replayed-Stays : (event : _) (r : Result UserKnowledgeEntry) → Keeps Stays (replayed event r)
  unfolding replayed
  replayed-Stays event r = search (keeps_rules, or_not_found-Keeps)

  replay_of-Stays :
      (user_id : ℕ) (device_id entry_id operation : String) (r : Result _)
      → Keeps Stays (replay_of user_id device_id entry_id operation r)
  unfolding replay_of
  replay_of-Stays user_id device_id entry_id operation (ok event) =
      search (keeps_rules, look-Stays, replayed-Stays)
  replay_of-Stays user_id device_id entry_id operation (err z) = search keeps_rules

  replay-Stays :
      (user_id : ℕ) (device_id entry_id operation client_event_id : String)
      → Keeps Stays
          (idempotent_knowledge_replay user_id device_id entry_id operation client_event_id)
  unfolding idempotent_knowledge_replay
  replay-Stays user_id device_id entry_id operation client_event_id =
      search (keeps_rules, zoom-Keeps, replay_of-Stays) depth 10

  module _ (x : Externals) (s : Stamps) (user_id : ℕ) (device_id : String) where
    event-Stays :
        (row : UserKnowledgeEntry) (operation client_event_id : String)
        → Keeps Stays (record_knowledge_event x s user_id device_id row operation client_event_id)
    unfolding record_knowledge_event
    event-Stays row operation client_event_id = zoom-Keeps _ _ _ λ t part h. h

    read-Stays :
        (entry_id operation client_event_id : String)
        → Keeps Stays (read_and_record x s user_id device_id entry_id operation client_event_id)
    unfolding read_and_record
    read-Stays entry_id operation client_event_id = search (keeps_rules, look-Stays, event-Stays)

    write_created-Stays :
        (entry_id : String) (input : KnowledgeEntryInput)
        → Keeps Stays (write_created x s user_id device_id entry_id input)
    unfolding write_created
    write_created-Stays entry_id input =
        search (transaction-Keeps, keeps_rules, create-Stays, look-Stays, event-Stays) depth 12

    write_updated-Stays :
        (entry_id : String) (input : KnowledgeEntryInput)
        → Keeps Stays (write_updated x s user_id device_id entry_id input)
    unfolding write_updated
    write_updated-Stays entry_id input =
        search (transaction-Keeps, keeps_rules, update_active-Stays, read-Stays) depth 10

    write_deleted-Stays :
        (entry_id client_event_id : String) (row : UserKnowledgeEntry)
        → Keeps Stays (write_deleted x s user_id device_id entry_id client_event_id row)
    unfolding write_deleted
    write_deleted-Stays entry_id client_event_id row =
        search (transaction-Keeps, keeps_rules, tombstone-Stays, or_not_found-Keeps, read-Stays)
          depth 10

    check-Stays :
        (entry_id : String) (base : Option ℕ)
        → Keeps Stays (check_current x s user_id device_id entry_id base)
    unfolding check_current
    check-Stays entry_id base = search (keeps_rules, look-Stays, or_not_found-Keeps) depth 12

    create_or-Stays :
        (entry_id : String) (input : KnowledgeEntryInput) (w : Option Written)
        → Keeps Stays (create_or_replayed x s user_id device_id entry_id input w)
    unfolding create_or_replayed
    create_or-Stays entry_id input none = write_created-Stays entry_id input
    create_or-Stays entry_id input (some w) = search keeps_rules

    update_or-Stays :
        (entry_id : String) (input : KnowledgeEntryInput) (w : Option Written)
        → Keeps Stays (update_or_replayed x s user_id device_id entry_id input w)
    unfolding update_or_replayed
    update_or-Stays entry_id input none = search (keeps_rules, check-Stays, write_updated-Stays)
    update_or-Stays entry_id input (some w) = search keeps_rules

    delete_or-Stays :
        (entry_id client_event_id : String) (base : Option ℕ) (w : Option Written)
        → Keeps Stays (delete_or_replayed x s user_id device_id entry_id client_event_id base w)
    unfolding delete_or_replayed
    delete_or-Stays entry_id client_event_id base none =
        search (keeps_rules, check-Stays, write_deleted-Stays)
    delete_or-Stays entry_id client_event_id base (some w) = search keeps_rules

    create_entry-Stays :
        (input : KnowledgeEntryInput) → Keeps Stays (create_entry x s user_id device_id input)
    unfolding create_entry
    create_entry-Stays input = search (keeps_rules, replay-Stays, create_or-Stays)

    update_entry-Stays :
        (raw_id : String) (input : KnowledgeEntryInput)
        → Keeps Stays (update_entry x s user_id device_id raw_id input)
    unfolding update_entry
    update_entry-Stays raw_id input = search (keeps_rules, replay-Stays, update_or-Stays) depth 10

    delete_entry-Stays :
        (raw_id client_event_id : String) (base : Option ℕ)
        → Keeps Stays (delete_entry x s user_id device_id raw_id client_event_id base)
    unfolding delete_entry
    delete_entry-Stays raw_id client_event_id base =
        search (keeps_rules, replay-Stays, delete_or-Stays) depth 10

  perform-Stays : (x : Externals) (c : Caller) (call : Call) → Keeps Stays (perform x c call)
  unfolding perform
  perform-Stays x c (create_call input) = create_entry-Stays x c.stamps c.user_id c.device_id input
  perform-Stays x c (update_call raw_id input) =
      update_entry-Stays x c.stamps c.user_id c.device_id raw_id input
  perform-Stays x c (delete_call raw_id client_event_id base) =
      delete_entry-Stays x c.stamps c.user_id c.device_id raw_id client_event_id base

-- The row that a user's id finds, once it is not "active" any more, is found unchanged in every column
-- after any calls of CreateEntry, UpdateEntry and DeleteEntry by any users on any devices, retries
-- included, however the database fails in them.
pub tombstoned-Stays :
    (x : Externals) (calls : List (Caller × Call)) (d : Db Tables) (u : ℕ) (k : String)
    (e : UserKnowledgeEntry)
    → (e.status == "active") ≡ false
    → find (is_entry u k) d.tables.entries ≡ some e
    → find (is_entry u k) (perform_all x calls d).tables.entries ≡ some e
unfolding perform_all
tombstoned-Stays x [] d u k e dead h = h
tombstoned-Stays x ((c, call) ∷ calls) d u k e dead h =
    tombstoned-Stays x calls (perform x c call d).1 u k e dead
      ((perform-Stays u k e dead x c call).after d h)
