-- ===== src/Knowledge/Repo.antt =====
-- internal/repository/knowledge_entries_repo.go. `now` is time.Now() of an UPDATE.
use agent_os_backend.Prelude.{
  ℕ, suc, String, Bool, ◌&&◌, ◌||◌, not, some, List, [], ◌∷◌, ◌++◌, ◌==◌, nat_eq, string_eq,
  if◌then◌else◌,
}
use agent_os_backend.Prelude.Text.{text_before}
use agent_os_backend.Errors.{Result, ok, err, duplicate_key, record_not_found}
use agent_os_backend.Db.{Exec, select, statement, attempt, pure, raise, ◌>>=◌}
use agent_os_backend.Table.{filter, any, update, count, sort_by, first}
use agent_os_backend.Knowledge.Rows.{UserKnowledgeEntry, Tables}

unfoldable pub is_entry : ℕ → String → UserKnowledgeEntry → Bool
is_entry user_id entry_id e = e.user_id == user_id && e.entry_id == entry_id

-- the condition on the status, which is left out to include deleted entries
unfoldable pub shown : Bool → UserKnowledgeEntry → Bool
shown include_deleted e = include_deleted || e.status == "active"

unfoldable pub list_by_user : ℕ → Bool → Exec Tables (List UserKnowledgeEntry)
unfolding shown
list_by_user user_id include_deleted = select λ t. ok (
    sort_by (λ a b. not (text_before b.entry_id a.entry_id))
      (filter (λ e. e.user_id == user_id && shown include_deleted e) t.entries))

unfoldable pub get_by_entry_id : ℕ → String → Bool → Exec Tables UserKnowledgeEntry
unfolding is_entry shown
get_by_entry_id user_id entry_id include_deleted =
    select λ t. first (λ e. is_entry user_id entry_id e && shown include_deleted e) t.entries

unfoldable pub create : UserKnowledgeEntry → Exec Tables (Unit {0})
unfolding is_entry
create entry = statement λ t.
    if any (λ e. e.id == entry.id || is_entry entry.user_id entry.entry_id e) t.entries
    then err duplicate_key
    else ok (tt, record t { entries = t.entries ++ entry ∷ [] })

unfoldable pub is_active_entry : ℕ → String → UserKnowledgeEntry → Bool
unfolding is_entry
is_active_entry user_id entry_id e = is_entry user_id entry_id e && e.status == "active"

-- the columns that UpdateActive sets
unfoldable pub rewritten : ℕ → UserKnowledgeEntry → UserKnowledgeEntry → UserKnowledgeEntry
rewritten now new e = record e {
  title = new.title;
  content_markdown = new.content_markdown;
  summary = new.summary;
  tags = new.tags;
  metadata = new.metadata;
  source_uri = new.source_uri;
  version = suc e.version;
  content_hash = new.content_hash;
  updated_by_device_id = new.updated_by_device_id;
  updated_at = now;
}

-- How many rows the UPDATE affects is not asked.
unfoldable pub update_active : ℕ → UserKnowledgeEntry → Exec Tables (Unit {0})
unfolding is_active_entry rewritten
update_active now new = statement λ t. ok (
  tt,
  record t {
    entries = update (is_active_entry new.user_id new.entry_id) (rewritten now new) t.entries;
  },
)

unfoldable pub buried : String → String → ℕ → UserKnowledgeEntry → UserKnowledgeEntry
buried device_id content_hash deleted_at e = record e {
  status = "deleted";
  version = suc e.version;
  content_hash = content_hash;
  deleted_at = some deleted_at;
  updated_by_device_id = device_id;
  updated_at = deleted_at;
}

-- the UPDATE of Tombstone, with the rows affected
unfoldable pub bury : ℕ → String → String → String → ℕ → Exec Tables ℕ
unfolding is_active_entry buried
bury user_id entry_id device_id content_hash deleted_at = statement λ t.
    let hit = is_active_entry user_id entry_id in
    ok (
      count hit t.entries,
      record t { entries = update hit (buried device_id content_hash deleted_at) t.entries },
    )

-- Tombstone reads RowsAffected alone: a refused UPDATE is taken for one of no row.
unfoldable pub rows_or_not_found : Result ℕ → Exec Tables (Unit {0})
rows_or_not_found (err e) = raise record_not_found
rows_or_not_found (ok rows) = if rows == 0 then raise record_not_found else pure tt

unfoldable pub tombstone : ℕ → String → String → String → ℕ → Exec Tables (Unit {0})
unfolding bury rows_or_not_found
tombstone user_id entry_id device_id content_hash deleted_at =
    attempt (bury user_id entry_id device_id content_hash deleted_at) >>= rows_or_not_found
