-- ===== src/Governance/Policies.antt =====
-- internal/service/governance.go: capabilities, policy rules, and Evaluate after its look-up of a kill
-- switch. time.Now(), uuid.New() and the 32 random bytes (in hexadecimal; `none` if crypto/rand fails)
-- are arguments. The UUID library and SHA-256 are functions about which nothing is assumed.
use agent_os_backend.Prelude.{
  ℕ, zero, ◌*◌, String, Bool, ◌||◌, Option, none, some, List, [], ◌∷◌, ◌==◌, nat_eq, string_eq,
  if◌then◌else◌, trim_space, concat,
}
use agent_os_backend.Prelude.Int.{ℤ, pos, leb_ℤ, ltb_ℤ}
use agent_os_backend.Errors.{Result, ok, err, record_not_found, invalid_governance_input}
use agent_os_backend.Db.{Exec, ◌>>=◌, ◌>>◌, pure, raise}
use agent_os_backend.Json.{JsonMap, empty}
use agent_os_backend.Governance.Rows.{
  CapabilityDefinition, PolicyRule, PolicyDecision, KillSwitch, Tables, Fresh,
}
use agent_os_backend.Governance.Repo

pub record Externals : Type 0 where
  pub uuid_string : ℕ → String
  pub sha256_hex : String → String

abbrev pub second : ℕ
second = 1000000000

abbrev pub minute : ℕ
minute = 60 * second

unfoldable pub normalize_page : ℤ → ℤ → ℤ × ℤ
normalize_page limit offset = (
  if leb_ℤ limit (pos 0) || ltb_ℤ (pos 100) limit then pos 50 else limit,
  if ltb_ℤ offset (pos 0) then pos 0 else offset,
)

unfoldable pub normalize_or_default : String → String → String
normalize_or_default value fallback =
    let trimmed = trim_space value in if trimmed == "" then fallback else trimmed

unfoldable pub is_decision : String → Bool
is_decision d =
    d == "allow" || d == "require_user_approval" || d == "require_admin_approval" || d == "deny"

unfoldable pub normalize_decision : String → String
unfolding is_decision
normalize_decision value =
    let trimmed = trim_space value in if is_decision trimmed then trimmed else ""

unfoldable pub to_json_map : Option JsonMap → JsonMap
to_json_map none = empty
to_json_map (some m) = m

pub record CreateCapabilityInput : Type 0 where
  pub key : String
  pub name : String
  pub description : String
  pub risk_level : String
  pub status : String
  pub metadata : Option JsonMap

unfoldable pub create_capability : Fresh → CreateCapabilityInput → Exec Tables CapabilityDefinition
create_capability fresh input =
    let key = trim_space input.key in
    let name = trim_space input.name in
    if key == "" || name == "" then raise invalid_governance_input else do
      let capability : CapabilityDefinition = record {
        id = fresh.id;
        created_at = fresh.at;
        key = key;
        name = name;
        description = trim_space input.description;
        risk_level = normalize_or_default input.risk_level "low";
        status = normalize_or_default input.status "active";
        metadata = to_json_map input.metadata;
      }
      Repo.create_capability capability
      pure capability

pub record CreatePolicyRuleInput : Type 0 where
  pub name : String
  pub description : String
  pub capability_key : String
  pub subject_type : String
  pub subject_id : String
  pub actor_user_id : Option ℕ
  pub risk_level : String
  pub effect : String
  pub priority : ℤ
  pub status : String
  pub conditions : Option JsonMap
  pub metadata : Option JsonMap

unfoldable pub default_priority : ℤ → ℤ
default_priority (pos zero) = pos 100
default_priority p = p

unfoldable pub create_policy_rule : Fresh → CreatePolicyRuleInput → Exec Tables PolicyRule
create_policy_rule fresh input =
    let name = trim_space input.name in
    let effect = normalize_decision input.effect in
    if name == "" || effect == "" then raise invalid_governance_input else do
      let rule : PolicyRule = record {
        id = fresh.id;
        created_at = fresh.at;
        name = name;
        description = trim_space input.description;
        capability_key = trim_space input.capability_key;
        subject_type = trim_space input.subject_type;
        subject_id = trim_space input.subject_id;
        actor_user_id = input.actor_user_id;
        risk_level = trim_space input.risk_level;
        effect = effect;
        priority = default_priority input.priority;
        status = normalize_or_default input.status "active";
        conditions = to_json_map input.conditions;
        metadata = to_json_map input.metadata;
      }
      Repo.create_policy_rule rule
      pure rule

pub record EvaluatePolicyInput : Type 0 where
  pub actor_user_id : Option ℕ
  pub actor_device_id : String
  pub subject_type : String
  pub subject_id : String
  pub capability_key : String
  pub risk_level : String
  pub context : Option JsonMap

-- the row that persistDecision writes
unfoldable pub new_decision :
    Fresh
    → EvaluatePolicyInput
    → String
    → String
    → String
    → Option ℕ
    → Option ℕ
    → ℕ
    → PolicyDecision
new_decision fresh input risk_level decision reason rule_id kill_switch_id now = record {
  id = fresh.id;
  created_at = fresh.at;
  actor_user_id = input.actor_user_id;
  actor_device_id = trim_space input.actor_device_id;
  subject_type = trim_space input.subject_type;
  subject_id = trim_space input.subject_id;
  capability_key = trim_space input.capability_key;
  risk_level = risk_level;
  decision = decision;
  reason = reason;
  policy_rule_id = rule_id;
  kill_switch_id = kill_switch_id;
  context = to_json_map input.context;
  decided_at = now;
}

unfoldable pub persist_decision :
    Fresh
    → EvaluatePolicyInput
    → String
    → String
    → String
    → Option ℕ
    → Option ℕ
    → ℕ
    → Exec Tables PolicyDecision
unfolding new_decision
persist_decision fresh input risk_level decision reason rule_id kill_switch_id now = do
  let row = new_decision fresh input risk_level decision reason rule_id kill_switch_id now
  Repo.create_policy_decision row
  pure row

-- The decision for the rules that match, in their order.
unfoldable pub decide_by_rules :
    Fresh → EvaluatePolicyInput → String → ℕ → List PolicyRule → Exec Tables PolicyDecision
decide_by_rules fresh input risk_level now [] =
    persist_decision fresh input risk_level "allow" "default allow: no matching active policy rule"
      none none now
decide_by_rules fresh input risk_level now (rule ∷ rules) =
    persist_decision fresh input risk_level rule.effect (concat "matched policy rule: " rule.name)
      (some rule.id) none now

unfoldable pub match_query : EvaluatePolicyInput → String → Repo.PolicyRuleMatchQuery
match_query input risk_level = record {
  capability_key = trim_space input.capability_key;
  subject_type = trim_space input.subject_type;
  subject_id = trim_space input.subject_id;
  actor_user_id = input.actor_user_id;
  risk_level = risk_level;
}

unfoldable pub switch_query : EvaluatePolicyInput → ℕ → Repo.KillSwitchQuery
switch_query input now = record {
  scope_type = trim_space input.subject_type;
  scope_id = trim_space input.subject_id;
  capability_key = trim_space input.capability_key;
  actor_user_id = input.actor_user_id;
  now = now;
}

-- Evaluate after the look-up of a kill switch.
unfoldable pub after_switch :
    Fresh → EvaluatePolicyInput → String → ℕ → Result KillSwitch → Exec Tables PolicyDecision
unfolding match_query
after_switch fresh input risk_level now (ok switch) =
    persist_decision fresh input risk_level "deny"
      (concat (concat "blocked by " switch.scope_type) " kill switch") none (some switch.id) now
after_switch fresh input risk_level now (err record_not_found) = do
  rules ← Repo.find_matching_policy_rules (match_query input risk_level)
  decide_by_rules fresh input risk_level now rules
after_switch fresh input risk_level now (err e) = raise e
