-- ===== src/Knowledge/Machine.antt =====
-- What a user's knowledge entry of one name goes through, apart from its content: it is absent, live at
-- a version, or, with any status but "active", deleted at a version.
use agent_os_backend.Prelude.{
  ℕ, suc, String, Option, none, some, List, [], ◌∷◌, ◌==◌, string_eq, if◌then◌else◌,
}
use agent_os_backend.Db.{Db, Exec}
use agent_os_backend.Table.{find}
use agent_os_backend.Knowledge.Rows.{UserKnowledgeEntry, Tables}
use agent_os_backend.Knowledge.Repo.{is_entry}
use agent_os_backend.Knowledge.Service.{
  Externals, KnowledgeEntryInput, Stamps, Written, create_entry, update_entry, delete_entry,
}

pub data State : Type 0 where
  absent : State
  live : ℕ → State
  gone : ℕ → State

pub data Kind : Type 0 where
  creation : Kind
  rewriting : Kind
  deletion : Kind

-- the state after a step of a kind
pub data Step : Kind → State → State → Type 0 where
  create_step : Step creation absent (live 1)
  update_step : {v : ℕ} → Step rewriting (live v) (live (suc v))
  delete_step : {v : ℕ} → Step deletion (live v) (gone (suc v))

pub data Course : State → State → Type 0 where
  still : {a : State} → Course a a
  further : {a b c : State} {k : Kind} → Course a b → Step k b c → Course a c

unfoldable pub state_of : Option UserKnowledgeEntry → State
state_of none = absent
state_of (some e) = if e.status == "active" then live e.version else gone e.version

-- the state of the entry of a name
unfoldable pub view : ℕ → String → Tables → State
unfolding state_of
view user_id entry_id t = state_of (find (is_entry user_id entry_id) t.entries)

-- the calls of internal/service/knowledge_entries.go that write
pub data Call : Type 0 where
  create_call : KnowledgeEntryInput → Call
  update_call : String → KnowledgeEntryInput → Call
  delete_call : String → String → Option ℕ → Call

unfoldable pub kind_of : Call → Kind
kind_of (create_call input) = creation
kind_of (update_call raw_id input) = rewriting
kind_of (delete_call raw_id client_event_id base_version) = deletion

unfoldable pub raw_id_of : Call → String
raw_id_of (create_call input) = input.entry_id
raw_id_of (update_call raw_id input) = raw_id
raw_id_of (delete_call raw_id client_event_id base_version) = raw_id

-- who calls, from which device, and with what from outside
pub record Caller : Type 0 where
  pub stamps : Stamps
  pub user_id : ℕ
  pub device_id : String

module _ (x : Externals) where
  unfoldable pub perform : Caller → Call → Exec Tables Written
  perform c (create_call input) = create_entry x c.stamps c.user_id c.device_id input
  perform c (update_call raw_id input) = update_entry x c.stamps c.user_id c.device_id raw_id input
  perform c (delete_call raw_id client_event_id base_version) =
      delete_entry x c.stamps c.user_id c.device_id raw_id client_event_id base_version

  unfoldable pub perform_all : List (Caller × Call) → Db Tables → Db Tables
  unfolding perform
  perform_all [] d = d
  perform_all ((c, k) ∷ calls) d = perform_all calls (perform c k d).1
