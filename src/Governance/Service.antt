-- ===== src/Governance/Service.antt =====
-- internal/service/governance.go: Evaluate, kill switches and approval receipts. time.Now(), uuid.New()
-- and the 32 random bytes (in hexadecimal; `none` if crypto/rand fails) are arguments.
use agent_os_backend.Prelude.{
  ℕ, ◌+◌, ◌*◌, String, ◌||◌, Option, none, some, ◌==◌, nat_eq, string_eq, if◌then◌else◌, trim_space,
}
use agent_os_backend.Prelude.Int.{ℤ, pos, leb_ℤ, ltb_ℤ, pos_part}
use agent_os_backend.Errors.{
  Result, ok, err, invalid_governance_input, approval_receipt_invalid, entropy,
}
use agent_os_backend.Db.{Exec, ◌>>=◌, ◌>>◌, pure, raise, lift, attempt}
use agent_os_backend.Json.{JsonMap}
use agent_os_backend.Governance.Rows.{
  PolicyDecision, ApprovalReceipt, KillSwitch, GovernanceScanResult, Tables, Fresh,
}
use agent_os_backend.Governance.Repo
use agent_os_backend.Governance.Policies.{
  Externals, minute, normalize_or_default, normalize_decision, to_json_map, EvaluatePolicyInput,
  switch_query, after_switch,
}

pub record CreateKillSwitchInput : Type 0 where
  pub scope_type : String
  pub scope_id : String
  pub reason : String
  pub status : String
  pub expires_at : Option ℕ
  pub created_by : Option ℕ
  pub metadata : Option JsonMap

unfoldable pub create_kill_switch : Fresh → CreateKillSwitchInput → Exec Tables KillSwitch
create_kill_switch fresh input =
    let scope_type = trim_space input.scope_type in
    if scope_type == "" then raise invalid_governance_input else do
      let switch : KillSwitch = record {
        id = fresh.id;
        created_at = fresh.at;
        scope_type = scope_type;
        scope_id = trim_space input.scope_id;
        reason = trim_space input.reason;
        status = normalize_or_default input.status "active";
        expires_at = input.expires_at;
        created_by = input.created_by;
        metadata = to_json_map input.metadata;
      }
      Repo.create_kill_switch switch
      pure switch

pub record CreateApprovalReceiptInput : Type 0 where
  pub policy_decision_id : ℕ
  pub actor_user_id : ℕ
  pub subject_type : String
  pub subject_id : String
  pub capability_key : String
  pub decision : String
  pub expires_at : ℕ
  pub metadata : Option JsonMap

pub record ConsumeApprovalReceiptInput : Type 0 where
  pub token : String
  pub consumed_by : String
  pub actor_user_id : Option ℕ
  pub subject_type : String
  pub subject_id : String
  pub capability_key : String

-- every error of the repository becomes ErrApprovalReceiptInvalid
unfoldable pub or_invalid_receipt : Result ApprovalReceipt → Result ApprovalReceipt
or_invalid_receipt (ok r) = ok r
or_invalid_receipt (err e) = err approval_receipt_invalid

-- a time-to-live that is not positive, or above an hour, becomes 15 minutes
unfoldable pub token_span : ℤ → ℕ
token_span ttl =
    if leb_ℤ ttl (pos 0) || ltb_ℤ (pos (60 * minute)) ttl then 15 * minute else pos_part ttl

module _ (x : Externals) where
  unfoldable pub evaluate : Fresh → ℕ → EvaluatePolicyInput → Exec Tables PolicyDecision
  unfolding switch_query
  evaluate fresh now input =
      if trim_space input.subject_type == "" || trim_space input.capability_key == ""
      then raise invalid_governance_input
      else do
        found ← attempt (Repo.find_active_kill_switch x.uuid_string now (switch_query input now))
        after_switch fresh input (normalize_or_default input.risk_level "low") now found

  unfoldable pub new_governance_token : Option String → Result (String × String)
  new_governance_token none = err entropy
  new_governance_token (some token) = ok (token, x.sha256_hex token)

  -- `now` is read only where the input gives no expiry.
  unfoldable pub new_receipt : Fresh → ℕ → CreateApprovalReceiptInput → String → ApprovalReceipt
  new_receipt fresh now input token_hash = record {
    id = fresh.id;
    created_at = fresh.at;
    policy_decision_id = input.policy_decision_id;
    actor_user_id = input.actor_user_id;
    subject_type = trim_space input.subject_type;
    subject_id = trim_space input.subject_id;
    capability_key = trim_space input.capability_key;
    decision = normalize_decision input.decision;
    token_hash = token_hash;
    status = "pending";
    expires_at = if input.expires_at == 0 then now + 15 * minute else input.expires_at;
    consumed_at = none;
    consumed_by = "";
    metadata = to_json_map input.metadata;
  }

  unfoldable pub create_approval_receipt :
      Fresh
      → ℕ
      → Option String
      → CreateApprovalReceiptInput
      → Exec Tables (ApprovalReceipt × String)
  unfolding new_governance_token new_receipt
  create_approval_receipt fresh now random input =
      if input.policy_decision_id == 0
        || input.actor_user_id == 0
        || trim_space input.subject_type == ""
        || trim_space input.capability_key == ""
      then raise invalid_governance_input
      else do
        made ← lift (new_governance_token random)
        let receipt = new_receipt fresh now input made.1
        Repo.create_approval_receipt receipt
        pure (receipt, made.0)

  unfoldable pub consume_approval_receipt_for_operation :
      ℕ → ConsumeApprovalReceiptInput → Exec Tables ApprovalReceipt
  unfolding or_invalid_receipt
  consume_approval_receipt_for_operation now input =
      if trim_space input.token == "" then raise invalid_governance_input else do
        consumed ← attempt (
            Repo.consume_approval_receipt_by_token_hash (x.sha256_hex input.token)
              (trim_space input.consumed_by) now
              (record {
                actor_user_id = input.actor_user_id;
                subject_type = trim_space input.subject_type;
                subject_id = trim_space input.subject_id;
                capability_key = trim_space input.capability_key;
              }))
        lift (or_invalid_receipt consumed)

  unfoldable pub reissue_approval_receipt_token :
      ℕ → Option String → ℕ → String → ℤ → Exec Tables (ApprovalReceipt × String)
  unfolding or_invalid_receipt new_governance_token
  reissue_approval_receipt_token now random id reason ttl =
      if id == 0 then raise invalid_governance_input else do
        made ← lift (new_governance_token random)
        reissued ← attempt (
            Repo.reissue_approval_receipt_token id made.1 (trim_space reason) (now + token_span ttl)
              now)
        receipt ← lift (or_invalid_receipt reissued)
        pure (receipt, made.0)

unfoldable pub revoke_approval_receipt : ℕ → ℕ → String → Exec Tables ApprovalReceipt
unfolding or_invalid_receipt
revoke_approval_receipt now id reason = if id == 0 then raise invalid_governance_input else do
  revoked ← attempt (Repo.revoke_approval_receipt id (trim_space reason) now)
  lift (or_invalid_receipt revoked)

unfoldable pub resolve_scan_result : ℕ → ℕ → ℕ → Exec Tables GovernanceScanResult
resolve_scan_result now id resolved_by =
    if id == 0 then raise invalid_governance_input else Repo.resolve_scan_result id resolved_by now

unfoldable pub get_policy_decision : ℕ → Exec Tables PolicyDecision
get_policy_decision id =
    if id == 0 then raise invalid_governance_input else Repo.get_policy_decision id
