-- ===== src/Audit/Repo.antt =====
-- internal/repository/audit_repo.go: the append under a lock on the last row, and the chain.
use agent_os_backend.Prelude.{
  ℕ, suc, Bool, ◌||◌, Option, none, some, List, [], ◌∷◌, ◌++◌, leb, ltb, ◌==◌, nat_eq,
  if◌then◌else◌, take, ◌&&◌, ◌!=◌,
}
use agent_os_backend.Prelude.Int.{ℤ, pos, leb_ℤ, pos_part}
use agent_os_backend.Errors.{Result, ok, err, duplicate_key}
use agent_os_backend.Db.{Exec, ◌>>=◌, ◌>>◌, select, statement, transaction, lift, pure}
use agent_os_backend.Table.{any, sort_by}
use agent_os_backend.Audit.Rows.{AuditEvent, Tables}

-- the later of a row and the latest of the rest
unfoldable pub later : AuditEvent → Option AuditEvent → AuditEvent
later e none = e
later e (some l) = if ltb l.sequence e.sequence then e else l

-- ORDER BY sequence DESC LIMIT 1
unfoldable pub latest : List AuditEvent → Option AuditEvent
unfolding later
latest [] = none
latest (e ∷ es) = some (later e (latest es))

-- 1 for the first row
unfoldable pub next_sequence : Option AuditEvent → ℕ
next_sequence none = 1
next_sequence (some e) = suc e.sequence

-- `stored_time` is what a timestamp column keeps of an instant.
unfoldable pub create : (ℕ → ℕ) → AuditEvent → Exec Tables (Unit {0})
create stored_time e = statement λ t.
    if any (λ x. x.id == e.id || x.sequence == e.sequence && e.sequence != 0) t.events
    then err duplicate_key
    else ok (
      tt,
      record t { events = t.events ++ record e { occurred_at = stored_time e.occurred_at } ∷ [] },
    )

-- The callback `prepare` completes the event; the caller keeps what it made.
unfoldable pub append_hash_chained :
    (ℕ → ℕ) → (Option AuditEvent → ℕ → Result AuditEvent) → Exec Tables AuditEvent
append_hash_chained stored_time prepare = transaction do
  previous ← select (λ t. ok (latest t.events))
  event ← lift (prepare previous (next_sequence previous))
  create stored_time event
  pure event

-- ORDER BY sequence ASC
unfoldable pub event_before : AuditEvent → AuditEvent → Bool
event_before a b = leb a.sequence b.sequence

unfoldable pub limited : ℤ → List AuditEvent → List AuditEvent
limited limit es = if leb_ℤ limit (pos 0) then es else take (pos_part limit) es

unfoldable pub list_hash_chain : ℤ → Exec Tables (List AuditEvent)
unfolding limited event_before
list_hash_chain limit = select λ t. ok (limited limit (sort_by event_before t.events))
