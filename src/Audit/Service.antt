-- ===== src/Audit/Service.antt =====
-- internal/service/audit.go. What encoding/json, crypto/sha256, the UUID library, `time.Format` and
-- fmt give is a parameter, and so is what the database keeps of an instant. The metadata is read
-- back as it was written.
use agent_os_backend.Prelude.{
  ℕ, suc, String, Bool, true, false, ◌||◌, Option, none, some, List, [], ◌∷◌, ◌++◌, ◌==◌, ◌!=◌,
  nat_eq, string_eq, if◌then◌else◌, trim_space, length,
}
use agent_os_backend.Prelude.Int.{ℤ}
use agent_os_backend.Errors.{Result, ok, err}
use agent_os_backend.Db.{Exec, ◌>>=◌, pure, lift}
use agent_os_backend.Json.{JsonMap, empty}
use agent_os_backend.Audit.Rows.{AuditEvent, Tables}
use agent_os_backend.Audit.Repo

pub record RecordAuditEventInput : Type 0 where
  pub actor_user_id : Option ℕ
  pub actor_device_id : String
  pub action : String
  pub resource_type : String
  pub resource_id : String
  pub outcome : String
  pub ip_address : String
  pub user_agent : String
  pub metadata : Option JsonMap

-- The map that is hashed, by its fields.
pub record AuditPayload : Type 0 where
  pub id : String
  pub sequence : ℕ
  pub previous_hash : String
  pub actor_user_id : String
  pub actor_device_id : String
  pub action : String
  pub resource_type : String
  pub resource_id : String
  pub outcome : String
  pub ip_address : String
  pub user_agent : String
  pub metadata : JsonMap
  pub occurred_at : String

pub record Externals : Type 0 where
  pub marshal : AuditPayload → Result String
  pub sha256_hex : String → String
  pub uuid_string : ℕ → String
  pub rfc3339_nano : ℕ → String
  pub decimal : ℕ → String
  pub stored_time : ℕ → ℕ

pub record AuditHashChainBreak : Type 0 where
  pub sequence : ℕ
  pub event_id : ℕ
  pub reason : String
  pub expected : String
  pub actual : String

pub record AuditHashChainVerification : Type 0 where
  pub valid : Bool
  pub checked : ℕ
  pub head_hash : String
  pub head_sequence : ℕ
  pub breaks : List AuditHashChainBreak

abbrev pub genesis : String
genesis = "GENESIS"

abbrev pub sha256 : String
sha256 = "sha256"

unfoldable pub add_break :
    AuditEvent → String → String → String → AuditHashChainVerification → AuditHashChainVerification
add_break e reason expected actual r = record r {
  valid = false;
  breaks =
      r.breaks
      ++ record {
        sequence = e.sequence;
        event_id = e.id;
        reason = reason;
        expected = expected;
        actual = actual;
      }
        ∷ [];
}

-- if c { addBreak }
unfoldable pub break_if :
    Bool
    → AuditEvent
    → String
    → String
    → String
    → AuditHashChainVerification
    → AuditHashChainVerification
unfolding add_break
break_if c e reason expected actual r = if c then add_break e reason expected actual r else r

-- the pointer to the previous row, and the hash that the chain starts from
unfoldable pub previous_hash : Option AuditEvent → String
previous_hash none = genesis
previous_hash (some e) = e.event_hash

-- the event before it stands in the chain
unfoldable pub new_event : ℕ → ℕ → RecordAuditEventInput → AuditEvent
new_event id now input = record {
  id = id;
  actor_user_id = input.actor_user_id;
  actor_device_id = trim_space input.actor_device_id;
  action = trim_space input.action;
  resource_type = trim_space input.resource_type;
  resource_id = trim_space input.resource_id;
  outcome = let outcome = trim_space input.outcome in if outcome == "" then "success" else outcome;
  ip_address = trim_space input.ip_address;
  user_agent = trim_space input.user_agent;
  metadata = elim input.metadata [ none ↦ empty | some m ↦ m ];
  occurred_at = now;
  sequence = 0;
  previous_hash = "";
  event_hash = "";
  hash_algorithm = "";
}

module _ (x : Externals) where
  unfoldable pub payload : AuditEvent → AuditPayload
  payload e = record {
    id = x.uuid_string e.id;
    sequence = e.sequence;
    previous_hash = e.previous_hash;
    actor_user_id = elim e.actor_user_id [ none ↦ "" | some a ↦ x.uuid_string a ];
    actor_device_id = e.actor_device_id;
    action = e.action;
    resource_type = e.resource_type;
    resource_id = e.resource_id;
    outcome = e.outcome;
    ip_address = e.ip_address;
    user_agent = e.user_agent;
    metadata = e.metadata;
    occurred_at = x.rfc3339_nano e.occurred_at;
  }

  unfoldable pub digest : Result String → Result String
  digest (ok encoded) = ok (x.sha256_hex encoded)
  digest (err e) = err e

  unfoldable pub compute_audit_event_hash : AuditEvent → Result String
  unfolding digest payload
  compute_audit_event_hash e = digest (x.marshal (payload e))

  unfoldable pub with_hash : AuditEvent → Result String → Result AuditEvent
  with_hash e (ok hash) = ok (record e { event_hash = hash })
  with_hash e (err error) = err error

  -- the callback that AppendHashChained calls
  unfoldable pub prepare : AuditEvent → Option AuditEvent → ℕ → Result AuditEvent
  unfolding with_hash previous_hash compute_audit_event_hash
  prepare event previous sequence =
      let linked = record event {
        sequence = sequence;
        hash_algorithm = sha256;
        previous_hash = previous_hash previous;
      } in
      with_hash linked (compute_audit_event_hash linked)

  -- A call without an action or a resource type records nothing.
  unfoldable pub record_event : ℕ → ℕ → RecordAuditEventInput → Exec Tables (Option AuditEvent)
  unfolding new_event prepare
  record_event id now input =
      if trim_space input.action == "" || trim_space input.resource_type == ""
      then pure none
      else do
        event ← Repo.append_hash_chained x.stored_time (prepare (new_event id now input))
        pure (some event)

  -- the comparison of the stored hash with the computed one
  unfoldable pub check_hash :
      AuditEvent → Result String → AuditHashChainVerification → Result AuditHashChainVerification
  unfolding break_if
  check_hash e (ok expected) r =
      ok (break_if (e.event_hash != expected) e "hash_mismatch" expected e.event_hash r)
  check_hash e (err error) r = err error

  unfoldable pub check_hashes :
      AuditEvent → AuditHashChainVerification → Result AuditHashChainVerification
  unfolding check_hash compute_audit_event_hash add_break
  check_hashes e r =
      if e.event_hash == "" || e.previous_hash == ""
      then ok (add_break e "missing_hash" "non-empty hashes" "empty hash" r)
      else check_hash e (compute_audit_event_hash e) r

  -- the head that the loop body leaves
  unfoldable pub advance : AuditEvent → AuditHashChainVerification → AuditHashChainVerification
  advance e r = record r { head_hash = e.event_hash; head_sequence = e.sequence }

  -- the two comparisons with the row before
  unfoldable pub check_link :
      String → ℕ → AuditEvent → AuditHashChainVerification → AuditHashChainVerification
  unfolding break_if
  check_link prev seq e r =
      break_if (e.previous_hash != prev) e "link_mismatch" prev e.previous_hash (
        break_if (e.sequence != suc seq) e "sequence_gap" (x.decimal (suc seq))
          (x.decimal e.sequence) r)

  -- the loop over the rows
  unfoldable pub verify_rows :
      String → ℕ → List AuditEvent → AuditHashChainVerification → Result AuditHashChainVerification
  unfolding check_hashes check_link add_break advance
  verify_rows prev seq [] r = ok r
  verify_rows prev seq (e ∷ es) r = elim (e.hash_algorithm != sha256) [
    | true ↦
        verify_rows prev seq es (add_break e "unsupported_hash_algorithm" sha256 e.hash_algorithm r)
    | false ↦ elim (check_hashes e (check_link prev seq e r)) [
      | err error ↦ err error
      | ok checked ↦ verify_rows e.event_hash e.sequence es (advance e checked)
    ]
  ]

  unfoldable pub verify_hash_chain : ℤ → Exec Tables AuditHashChainVerification
  unfolding verify_rows
  verify_hash_chain limit = do
    events ← Repo.list_hash_chain limit
    lift (
        verify_rows genesis 0 events (record {
          valid = true;
          checked = length events;
          head_hash = "";
          head_sequence = 0;
          breaks = [];
        }))
