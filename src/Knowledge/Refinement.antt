-- ===== src/Knowledge/Refinement.antt =====
-- That the calls of internal/service/knowledge_entries.go implement the states of an entry.
use agent_os_backend.Prelude.{ℕ, String, List, [], ◌∷◌, refl, trim_space}
use agent_os_backend.Errors.{Result, ok, err}
use agent_os_backend.Db.{Db}
use agent_os_backend.Db.Triples.{Ends}
use agent_os_backend.Knowledge.Rows.{Tables}
use agent_os_backend.Knowledge.Service.{Externals, Written}
use agent_os_backend.Knowledge.Machine.{
  State, Kind, Course, still, further, view, Caller, Call, create_call, update_call, delete_call,
  kind_of, raw_id_of, perform, perform_all,
}
use agent_os_backend.Knowledge.Steps.{Moves, stays, steps}
use agent_os_backend.Knowledge.Outcomes.{Same, Done}
use agent_os_backend.Knowledge.Calls.{create_entry-Done, update_entry-Done, delete_entry-Done}

-- the outcome of a call by a caller on rows
abbrev pub Outcome : Caller → Call → Tables → Result Written → Tables → Type 0
Outcome c k start =
    Ends (Done c.user_id (kind_of k) (trim_space (raw_id_of k)) start)
      (Same c.user_id (kind_of k) (trim_space (raw_id_of k)) start)

-- However the database fails in it: a call of CreateEntry, UpdateEntry or DeleteEntry that returns an
-- error leaves every row of the entries and of the sync log as it was; one that returns an entry has
-- moved no entry but the one of the caller and of the trimmed id by at most one step of its kind (absent
-- to version 1, a live version to the next, or a live version to deleted at the next), and the entry
-- that it returns is a stored row of that user and id.
pub perform-Outcome :
    (x : Externals) (c : Caller) (k : Call) (d : Db Tables)
    → Outcome c k d.tables (perform x c k d).0 (perform x c k d).1.tables
unfolding perform kind_of raw_id_of
perform-Outcome x c (create_call input) d =
    (create_entry-Done x c.stamps c.user_id c.device_id d.tables input).after d refl
perform-Outcome x c (update_call raw_id input) d =
    (update_entry-Done x c.stamps c.user_id c.device_id d.tables raw_id input).after d refl
perform-Outcome x c (delete_call raw_id client_event_id base_version) d =
    let t =
      delete_entry-Done x c.stamps c.user_id c.device_id d.tables raw_id client_event_id
        base_version in
    t.after d refl

move : {kind : Kind} {mine : Type 0} {a b c : State} → Course a b → Moves kind mine b c → Course a c
move h stays = h
move h (steps m s) = further h s

outcome-Course :
    (c : Caller) (k : Call) (start : Tables) (r : Result Written) (t : Tables) (a : State) (u : ℕ)
    (entry_id : String)
    → Outcome c k start r t
    → Course a (view u entry_id start)
    → Course a (view u entry_id t)
outcome-Course c k start (ok w) t a u entry_id h p = move p (h.0 u entry_id)
outcome-Course c k start (err e) t a u entry_id h p = rw h p

all-Course :
    (x : Externals) (calls : List (Caller × Call)) (d : Db Tables) (a : State) (u : ℕ)
    (entry_id : String)
    → Course a (view u entry_id d.tables)
    → Course a (view u entry_id (perform_all x calls d).tables)
unfolding perform_all
all-Course x [] d a u entry_id p = p
all-Course x ((c, k) ∷ calls) d a u entry_id p =
    all-Course x calls (perform x c k d).1 a u entry_id (
      outcome-Course c k d.tables (perform x c k d).0 (perform x c k d).1.tables a u entry_id
        (perform-Outcome x c k d) p)

-- Whatever calls of the three any users make on any devices one after the other, and however the
-- database fails in them, the entry of each user and id goes through steps of its states alone: it is
-- created at version 1, each update adds one to the version of a live entry, and a deletion adds one to
-- it and ends it.
pub perform_all-Course :
    (x : Externals) (calls : List (Caller × Call)) (d : Db Tables) (u : ℕ) (entry_id : String)
    → Course (view u entry_id d.tables) (view u entry_id (perform_all x calls d).tables)
perform_all-Course x calls d u entry_id =
    all-Course x calls d (view u entry_id d.tables) u entry_id still
