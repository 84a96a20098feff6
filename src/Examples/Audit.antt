-- ===== src/Examples/Audit.antt =====
-- The theorems on the audit log at concrete inputs.
use agent_os_backend.Prelude.{
  trim_space, String, false, true, none, some, List, [], ◌∷◌, ◌≡◌, ◌≢◌, refl, inl, inr, arith, In,
  eq_iff, ap, ◌∙◌, sym, map, ◌↔◌,
}
use agent_os_backend.Audit.Rows.{AuditEvent, Tables, no_rows}
use agent_os_backend.Audit.Service.{
  Externals, RecordAuditEventInput, AuditHashChainVerification, check_link, check_hash,
  check_hashes, break_if, advance, verify_rows, verify_hash_chain, compute_audit_event_hash,
  payload, digest, record_event, prepare, with_hash, new_event,
}
use agent_os_backend.Audit.Repo.{
  limited, next_sequence, list_hash_chain, event_before, append_hash_chained, latest, create,
}
use agent_os_backend.Json.{empty}
use agent_os_backend.Audit.Recording.{Recording, record_events}
use agent_os_backend.Db.{Db, select, transaction, statement}
use agent_os_backend.Errors.{ok}
use agent_os_backend.Prelude.Int.{pos}
use agent_os_backend.Audit.Verification.{
  records-valid, verify_hash_chain-tamper_evident, verify_hash_chain-Chain,
}
use agent_os_backend.Table.{sort_by, insert_by, any}
use agent_os_backend.Audit.Chain.{Chain}

abbrev pub plain : Externals
plain = record {
  marshal = λ p. ok p.action;
  sha256_hex = λ s. "digest";
  uuid_string = λ n. "uuid";
  rfc3339_nano = λ n. "time";
  decimal = λ n. "number";
  stored_time = λ n. n;
}

abbrev renamed : RecordAuditEventInput
renamed = record {
  actor_user_id = some 1;
  actor_device_id = "phone";
  action = "device.renamed";
  resource_type = "device";
  resource_id = "phone";
  outcome = "";
  ip_address = "";
  user_agent = "";
  metadata = none;
}

abbrev two_calls : List Recording
two_calls =
    record { id = 7; now = 100; input = renamed }
    ∷ record { id = 8; now = 200; input = renamed }
    ∷ []

abbrev empty_db : Db Tables
empty_db = record { tables = no_rows; issued = 0; refuses = λ _. false }

digest-filled : (s : String) → plain.sha256_hex s ≢ ""
digest-filled s e = ground (arith, eq_iff "digest" "")

records-valid_example :
    (v : AuditHashChainVerification) × ((verify_hash_chain plain
        (pos 0)
        (record_events plain two_calls empty_db)).0
      ≡ ok v)
    × (v.valid ≡ true)
    × (v.breaks ≡ [])
unfolding record_events record_event append_hash_chained transaction select statement latest create
    prepare with_hash digest compute_audit_event_hash trim_space any new_event next_sequence
records-valid_example =
    records-valid plain two_calls empty_db digest-filled (refl, (refl, tt)) refl refl

abbrev one_row : AuditEvent
one_row = record {
  id = 7;
  actor_user_id = some 1;
  actor_device_id = "phone";
  action = "device.renamed";
  resource_type = "device";
  resource_id = "phone";
  outcome = "success";
  ip_address = "";
  user_agent = "";
  metadata = empty;
  occurred_at = 100;
  sequence = 1;
  previous_hash = "GENESIS";
  event_hash = "digest";
  hash_algorithm = "sha256";
}

abbrev one_db : Db Tables
one_db = record { tables = record { events = one_row ∷ [] }; issued = 0; refuses = λ _. false }

abbrev whole : AuditHashChainVerification
whole = record { valid = true; checked = 1; head_hash = "digest"; head_sequence = 1; breaks = [] }

verify_hash_chain-Chain_example : (true ≡ true) ↔ Chain plain "GENESIS" 0 (one_row ∷ [])
unfolding verify_hash_chain verify_rows list_hash_chain select sort_by insert_by event_before
    check_hashes check_hash check_link break_if advance limited compute_audit_event_hash payload
    digest
verify_hash_chain-Chain_example = verify_hash_chain-Chain plain one_db whole refl

one_row-apart :
    (a b : AuditEvent)
    → In a (one_row ∷ [])
    → In b (one_row ∷ [])
    → payload plain a ≡ payload plain b
one_row-apart a b (inl e) (inl k) = ap (payload plain) (e ∙ sym k)
one_row-apart a b (inl e) (inr k) = elim k [ ]
one_row-apart a b (inr e) k = elim e [ ]

verify_hash_chain-tamper_evident_example :
    map (payload plain) (one_row ∷ []) ≡ map (payload plain) (one_row ∷ [])
unfolding verify_hash_chain verify_rows list_hash_chain select sort_by insert_by event_before
    check_hashes check_hash check_link break_if advance limited compute_audit_event_hash payload
    digest
verify_hash_chain-tamper_evident_example =
    verify_hash_chain-tamper_evident plain one_db one_db whole whole
      (λ a b i j _. one_row-apart a b i j) refl refl refl refl refl refl
