-- ===== src/Governance/Enforcer.antt =====
-- internal/service/governance_enforcer.go. `Enforce` returns a result and an error, either of
-- which may be nil: a call that returns no result raises, any other returns the pair.
use agent_os_backend.Prelude.{
  ℕ, ◌+◌, ◌*◌, String, Bool, true, false, not, ◌||◌, Option, none, some, ◌==◌, ◌!=◌, string_eq,
  nat_eq, if◌then◌else◌, trim_space, lower_is,
}
use agent_os_backend.Errors.{
  Error, Result, ok, err, invalid_governance_input, governance_denied, governance_approval_required,
  governance_approval_invalid,
}
use agent_os_backend.Db.{Exec, ◌>>=◌, pure, raise, attempt}
use agent_os_backend.Json.{JsonMap, member, text, empty}
use agent_os_backend.Governance.Rows.{PolicyDecision, ApprovalReceipt, Tables, Fresh}
use agent_os_backend.Governance.Policies.{Externals, EvaluatePolicyInput, minute}
use agent_os_backend.Governance.Service.{
  CreateApprovalReceiptInput, ConsumeApprovalReceiptInput, evaluate, create_approval_receipt,
  consume_approval_receipt_for_operation,
}

pub record GovernanceEnforcementConfig : Type 0 where
  pub mode : String
  pub sage_mode : String
  pub object_mode : String
  pub kb_mode : String

unfoldable pub normalize_mode : String → String
normalize_mode mode =
    let trimmed = trim_space mode in
    if lower_is trimmed "disabled"
    then "disabled"
    else if lower_is trimmed "observe"
    then "observe"
    else if lower_is trimmed "enforce"
    then "enforce"
    else ""

-- `configured` tells whether the governance service was given.
pub record GovernanceEnforcer : Type 0 where
  pub configured : Bool
  pub config : GovernanceEnforcementConfig

unfoldable pub or_observe : String → String
or_observe mode = if mode == "" then "observe" else mode

unfoldable pub new_governance_enforcer : Bool → GovernanceEnforcementConfig → GovernanceEnforcer
unfolding normalize_mode or_observe
new_governance_enforcer configured cfg = record {
  configured = configured;
  config = record {
    mode = or_observe (normalize_mode cfg.mode);
    sage_mode = normalize_mode cfg.sage_mode;
    object_mode = normalize_mode cfg.object_mode;
    kb_mode = normalize_mode cfg.kb_mode;
  };
}

-- the mode of one subject family, or the general one
unfoldable pub or_general : GovernanceEnforcementConfig → String → String
unfolding or_observe
or_general cfg mode = if mode != "" then mode else or_observe cfg.mode

unfoldable pub mode_for : GovernanceEnforcementConfig → String → String
unfolding or_general or_observe
mode_for cfg subject_type =
    let subject = trim_space subject_type in
    if subject == "sage_plugin"
      || subject == "sage_permission_grant"
      || subject == "sage_invocation"
    then or_general cfg cfg.sage_mode
    else if subject == "object_operation"
    then or_general cfg cfg.object_mode
    else if subject == "kb_operation"
    then or_general cfg cfg.kb_mode
    else or_observe cfg.mode

pub record GovernanceEnforcementInput : Type 0 where
  pub actor_user_id : Option ℕ
  pub actor_device_id : String
  pub subject_type : String
  pub subject_id : String
  pub capability_key : String
  pub risk_level : String
  pub context : Option JsonMap
  pub approval_token : String
  pub approval_consumed_by : String

pub record GovernanceEnforcementResult : Type 0 where
  pub allowed : Bool
  pub mode : String
  pub would_have_blocked : Bool
  pub decision : Option PolicyDecision
  pub approval_receipt : Option ApprovalReceipt
  pub approval_token : String
  pub consumed_approval_receipt : Option ApprovalReceipt

abbrev pub Outcome : Type 0
Outcome = GovernanceEnforcementResult × Option Error

-- the literal that every branch starts from
abbrev pub outcome_of : Bool → String → Bool → Option PolicyDecision → GovernanceEnforcementResult
outcome_of allowed mode blocked decision = record {
  allowed = allowed;
  mode = mode;
  would_have_blocked = blocked;
  decision = decision;
  approval_receipt = none;
  approval_token = "";
  consumed_approval_receipt = none;
}

-- the branch for a request that carries an approval token
unfoldable pub after_consume : String → Result ApprovalReceipt → Outcome
after_consume mode (ok receipt) =
    (record (outcome_of true mode false none) { consumed_approval_receipt = some receipt }, none)
after_consume mode (err e) =
    if mode == "observe"
    then (outcome_of true mode true none, none)
    else (outcome_of false mode true none, some governance_approval_invalid)

-- What the clock, the UUID library and crypto/rand give one call of Enforce.
pub record Chance : Type 0 where
  pub now : ℕ
  pub decision : Fresh
  pub receipt : Fresh
  pub random : Option String

-- the user whom an approval receipt may be made out to
unfoldable pub approver : Option ℕ → Option ℕ
approver none = none
approver (some id) = if id != 0 then some id else none

-- the part of the input that the governance service evaluates
abbrev pub evaluation_of : GovernanceEnforcementInput → EvaluatePolicyInput
evaluation_of input = record {
  actor_user_id = input.actor_user_id;
  actor_device_id = input.actor_device_id;
  subject_type = input.subject_type;
  subject_id = input.subject_id;
  capability_key = input.capability_key;
  risk_level = input.risk_level;
  context = input.context;
}

-- the part of the input with which an approval receipt is consumed
abbrev pub consumption_of : GovernanceEnforcementInput → ConsumeApprovalReceiptInput
consumption_of input =
    let named = trim_space input.approval_consumed_by in
    record {
      token = input.approval_token;
      consumed_by = if named == "" then trim_space input.actor_device_id else named;
      actor_user_id = input.actor_user_id;
      subject_type = input.subject_type;
      subject_id = input.subject_id;
      capability_key = input.capability_key;
    }

-- the receipt that a decision asks the user `actor` for
abbrev pub approval_of :
    Chance → GovernanceEnforcementInput → PolicyDecision → ℕ → CreateApprovalReceiptInput
approval_of chance input decision actor = record {
  policy_decision_id = decision.id;
  actor_user_id = actor;
  subject_type = input.subject_type;
  subject_id = input.subject_id;
  capability_key = input.capability_key;
  decision = decision.decision;
  expires_at = chance.now + 15 * minute;
  metadata = some (
      member "actor_device_id" (text input.actor_device_id)
        (member "risk_level" (text input.risk_level) empty));
}

module _ (x : Externals) where
  -- the branch for a decision that asks for an approval
  unfoldable pub request_approval :
      Chance
      → GovernanceEnforcementInput
      → PolicyDecision
      → GovernanceEnforcementResult
      → Option ℕ
      → Exec Tables Outcome
  request_approval chance input decision result none =
      pure (result, some governance_approval_required)
  request_approval chance input decision result (some actor) = do
    made ←
        create_approval_receipt x chance.receipt chance.now chance.random
          (approval_of chance input decision actor)
    pure (
      record result { approval_receipt = some made.0; approval_token = made.1 },
      some governance_approval_required,
    )

  unfoldable pub after_decision :
      Chance → GovernanceEnforcementInput → String → PolicyDecision → Exec Tables Outcome
  unfolding request_approval approver
  after_decision chance input mode decision =
      if mode == "observe"
      then pure (outcome_of true mode (decision.decision != "allow") (some decision), none)
      else if decision.decision == "allow"
      then pure (outcome_of true mode false (some decision), none)
      else if decision.decision == "deny"
      then pure (outcome_of false mode true (some decision), some governance_denied)
      else if decision.decision == "require_user_approval"
          || decision.decision == "require_admin_approval"
      then request_approval chance input decision (outcome_of false mode true (some decision))
          (approver input.actor_user_id)
      else pure (outcome_of false mode true (some decision), some governance_denied)

  unfoldable pub consume_token : Chance → GovernanceEnforcementInput → String → Exec Tables Outcome
  unfolding after_consume
  consume_token chance input mode = do
    consumed ← attempt (consume_approval_receipt_for_operation x chance.now (consumption_of input))
    pure (after_consume mode consumed)

  unfoldable pub consult : Chance → GovernanceEnforcementInput → String → Exec Tables Outcome
  unfolding after_decision
  consult chance input mode = do
    decision ← evaluate x chance.decision chance.now (evaluation_of input)
    after_decision chance input mode decision

  unfoldable pub enforce :
      GovernanceEnforcer → Chance → GovernanceEnforcementInput → Exec Tables Outcome
  unfolding consume_token consult
  enforce e chance input =
      let mode = mode_for e.config input.subject_type in
      if not e.configured
      then raise invalid_governance_input
      else if mode == "disabled"
      then pure (outcome_of true mode false none, none)
      else if input.approval_token != ""
      then consume_token chance input mode
      else consult chance input mode
