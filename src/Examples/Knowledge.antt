-- ===== src/Examples/Knowledge.antt =====
-- The theorems on knowledge entries at concrete inputs.
use agent_os_backend.Prelude.{ℕ, false, none, some, List, [], ◌∷◌, ◌≡◌, refl, nat_eq, string_eq}
use agent_os_backend.Json.{empty, null}
use agent_os_backend.Db.{Db}
use agent_os_backend.Knowledge.Rows.{UserKnowledgeEntry, Tables}
use agent_os_backend.Knowledge.Service.{Externals, KnowledgeEntryInput}
use agent_os_backend.Knowledge.Machine.{
  Course, Caller, Call, view, create_call, update_call, delete_call, perform, perform_all,
}
use agent_os_backend.Knowledge.Refinement.{Outcome, perform-Outcome, perform_all-Course}
use agent_os_backend.Table.{find}
use agent_os_backend.Knowledge.Repo.{is_entry}
use agent_os_backend.Knowledge.Tombstones.{tombstoned-Stays}

abbrev plain : Externals
plain = record { sha256_hex = λ content. "00"; texts_json = λ tags. null }

abbrev note : KnowledgeEntryInput
note = record {
  entry_id = " n1 ";
  title = "Note";
  content_markdown = "text";
  summary = "";
  tags = none;
  metadata = none;
  source_uri = "";
  client_event_id = "";
  base_version = none;
}

abbrev no_entries : Tables
no_entries = record { entries = []; sync = record { events = []; cursors = []; sequences = [] } }

abbrev knowledge_db : Db Tables
knowledge_db = record { tables = no_entries; issued = 0; refuses = λ _. false }

abbrev phone : ℕ → Caller
phone n = record {
  stamps = record { id = n; now = n; event = record { id = n; reserved_at = n; timestamp = n } };
  user_id = 1;
  device_id = "phone";
}

perform-Outcome_example :
    Outcome
      (phone 3)
      (create_call note)
      no_entries
      (perform plain (phone 3) (create_call note) knowledge_db).0
      (perform plain (phone 3) (create_call note) knowledge_db).1.tables
perform-Outcome_example = perform-Outcome plain (phone 3) (create_call note) knowledge_db

abbrev note_calls : List (Caller × Call)
note_calls =
    (phone 3, create_call note)
    ∷ (phone 4, update_call "n1" note)
    ∷ (phone 5, delete_call "n1" "" (some 2))
    ∷ (phone 6, update_call "n1" note)
    ∷ []

perform_all-Course_example :
    Course (view 1 "n1" no_entries) (view 1 "n1" (perform_all plain note_calls knowledge_db).tables)
perform_all-Course_example = perform_all-Course plain note_calls knowledge_db 1 "n1"

abbrev deleted_note : UserKnowledgeEntry
deleted_note = record {
  id = 3;
  created_at = 3;
  updated_at = 5;
  user_id = 1;
  entry_id = "n1";
  title = "Note";
  content_markdown = "text";
  summary = "";
  tags = none;
  metadata = empty;
  source_uri = "";
  status = "deleted";
  version = 3;
  content_hash = "00";
  deleted_at = some 5;
  updated_by_device_id = "phone";
}

abbrev deleted_db : Db Tables
deleted_db = record knowledge_db { tables = record no_entries { entries = deleted_note ∷ [] } }

tombstoned-Stays_example :
    find (is_entry 1 "n1") (perform_all plain note_calls deleted_db).tables.entries
    ≡ some deleted_note
unfolding find is_entry
tombstoned-Stays_example =
    tombstoned-Stays plain note_calls deleted_db 1 "n1" deleted_note refl refl
