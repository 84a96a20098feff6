-- ===== src/Examples/Governance.antt =====
-- The governance theorems at concrete inputs.
use agent_os_backend.Prelude.{
  String, false, true, Option, none, some, [], ◌∷◌, ◌≡◌, refl, inl, arith, trim_space, Bool, eq_iff,
  ◌≢◌,
}
use agent_os_backend.Prelude.Int.{pos}
use agent_os_backend.Errors.{Error, governance_denied, ok}
use agent_os_backend.Db.{Db, select, statement}
use agent_os_backend.Json.{empty}
use agent_os_backend.Table.{find, filter, any, sort_by}
use agent_os_backend.Governance.Rows.{
  Tables, no_rows, Fresh, KillSwitch, PolicyRule, PolicyDecision,
}
use agent_os_backend.Governance.Repo.{
  find_active_kill_switch, find_matching_policy_rules, create_policy_decision, switch_live,
  switch_blocks, rule_matches, rule_before,
}
use agent_os_backend.Governance.Policies.{
  Externals, EvaluatePolicyInput, after_switch, persist_decision, decide_by_rules,
  normalize_or_default, to_json_map, switch_query,
}
use agent_os_backend.Governance.Service.{evaluate}
use agent_os_backend.Governance.Evaluation.{Explained, Recorded, evaluate-Explained, Blocking}
use agent_os_backend.Governance.Enforcer.{
  Chance, GovernanceEnforcementInput, GovernanceEnforcer, Outcome, enforce, mode_for, consult,
  or_general, outcome_of, after_decision, evaluation_of, or_observe,
}
use agent_os_backend.Governance.Enforcement.{
  Consults, kill_switch-stops-enforce, observe-Foretells, Foretells, Justified, enforce-Justified,
}
use agent_os_backend.Governance.Availability.{evaluate-returns}

abbrev pub plain : Externals
plain = record { uuid_string = λ _. "user-1"; sha256_hex = λ s. s }

abbrev deny_payments : PolicyRule
deny_payments = record {
  id = 7;
  created_at = 1;
  name = "no payments";
  description = "";
  capability_key = "payments";
  subject_type = "";
  subject_id = "";
  actor_user_id = none;
  risk_level = "";
  effect = "deny";
  priority = pos 10;
  status = "active";
  conditions = empty;
  metadata = empty;
}

abbrev ask_first : PolicyRule
ask_first = record deny_payments { id = 8; effect = "require_user_approval"; priority = pos 20 }

abbrev pub served : Tables → Db Tables
served t = record { tables = t; issued = 0; refuses = λ _. false }

abbrev rules_db : Db Tables
rules_db = served (record no_rows { rules = ask_first ∷ deny_payments ∷ [] })

abbrev pay : EvaluatePolicyInput
pay = record {
  actor_user_id = some 1;
  actor_device_id = " phone ";
  subject_type = "kb_operation";
  subject_id = "kb-1";
  capability_key = "payments";
  risk_level = "";
  context = none;
}

abbrev pub first_fresh : Fresh
first_fresh = record { id = 100; at = 5 }

abbrev pub denied : PolicyDecision
denied = record {
  id = 100;
  created_at = 5;
  actor_user_id = some 1;
  actor_device_id = "phone";
  subject_type = "kb_operation";
  subject_id = "kb-1";
  capability_key = "payments";
  risk_level = "low";
  decision = "deny";
  reason = "matched policy rule: no payments";
  policy_rule_id = some 7;
  kill_switch_id = none;
  context = empty;
  decided_at = 5;
}

evaluate-Explained_example :
    Explained plain 5 pay rules_db.tables denied
    × Recorded rules_db.tables denied (evaluate plain first_fresh 5 pay rules_db).1.tables
unfolding evaluate after_switch decide_by_rules normalize_or_default to_json_map select statement
    find filter any sort_by find_active_kill_switch find_matching_policy_rules
    create_policy_decision rule_matches rule_before trim_space persist_decision
evaluate-Explained_example = evaluate-Explained plain first_fresh 5 pay rules_db denied refl

abbrev stop_all : KillSwitch
stop_all = record {
  id = 3;
  created_at = 1;
  scope_type = "global";
  scope_id = "";
  reason = "incident";
  status = "active";
  expires_at = some 9;
  created_by = none;
  metadata = empty;
}

abbrev stopped_db : Db Tables
stopped_db = served (record rules_db.tables { switches = stop_all ∷ [] })

abbrev enforcer_in : String → GovernanceEnforcer
enforcer_in mode = record {
  configured = true;
  config = record { mode = mode; sage_mode = ""; object_mode = "disabled"; kb_mode = "" };
}

abbrev chance : Chance
chance = record {
  now = 5;
  decision = first_fresh;
  receipt = record { id = 200; at = 5 };
  random = some "ab";
}

abbrev pay_request : GovernanceEnforcementInput
pay_request = record {
  actor_user_id = some 1;
  actor_device_id = " phone ";
  subject_type = "kb_operation";
  subject_id = "kb-1";
  capability_key = "payments";
  risk_level = "";
  context = none;
  approval_token = "";
  approval_consumed_by = "";
}

abbrev stopped : PolicyDecision
stopped = record denied {
  reason = "blocked by global kill switch";
  policy_rule_id = none;
  kill_switch_id = some 3;
}

strict-Consults : Consults (enforcer_in "enforce") pay_request "enforce"
unfolding mode_for or_general or_observe trim_space
strict-Consults = (refl, refl, refl, λ e. ground (arith, eq_iff "enforce" "disabled"))

watching-Consults : Consults (enforcer_in "observe") pay_request "observe"
unfolding mode_for or_general or_observe trim_space
watching-Consults = (refl, refl, refl, λ e. ground (arith, eq_iff "observe" "disabled"))

stop_all-Blocking : Blocking plain 5 (evaluation_of pay_request) stop_all
unfolding switch_live switch_blocks switch_query
stop_all-Blocking = (refl, refl)

kill_switch-stops-enforce_example :
    (◌≡◌ {A = Bool} false false) × (some governance_denied ≡ some governance_denied)
unfolding enforce consult after_decision mode_for or_general or_observe evaluate after_switch
    normalize_or_default to_json_map select statement find filter any sort_by
    find_active_kill_switch create_policy_decision trim_space persist_decision switch_live
    switch_blocks
kill_switch-stops-enforce_example =
    kill_switch-stops-enforce plain (enforcer_in "enforce") chance pay_request stopped_db stop_all
      (outcome_of false "enforce" true (some stopped), some governance_denied) strict-Consults
      (inl refl) stop_all-Blocking refl

abbrev allowed : PolicyDecision
allowed = record denied {
  decision = "allow";
  reason = "default allow: no matching active policy rule";
  policy_rule_id = none;
}

abbrev allowing : Outcome
allowing = (outcome_of true "enforce" false (some allowed), none)

enforce-Justified_example :
    (◌≡◌ {A = Option Error} none none)
    × Justified plain (enforcer_in "enforce") chance pay_request (served no_rows) allowing
unfolding enforce consult after_decision mode_for or_general or_observe evaluate after_switch
    decide_by_rules normalize_or_default to_json_map select statement find filter any sort_by
    find_active_kill_switch find_matching_policy_rules create_policy_decision trim_space
    persist_decision
enforce-Justified_example =
    enforce-Justified plain (enforcer_in "enforce") chance pay_request (served no_rows) allowing
      refl refl refl

observe-Foretells_example :
    Foretells plain chance pay_request rules_db
      (enforce plain (enforcer_in "observe") chance pay_request rules_db).0
      (enforce plain (enforcer_in "enforce") chance pay_request rules_db).0
unfolding mode_for or_general or_observe trim_space
observe-Foretells_example =
    observe-Foretells plain chance pay_request rules_db (enforcer_in "observe")
      (enforcer_in "enforce") refl refl refl refl

trimmed-filled : trim_space "kb_operation" ≢ ""
unfolding trim_space
trimmed-filled e = ground (arith, eq_iff "kb_operation" "")

capability-filled : trim_space "payments" ≢ ""
unfolding trim_space
capability-filled e = ground (arith, eq_iff "payments" "")

evaluate-returns_example :
    (p : PolicyDecision) × ((evaluate plain first_fresh 5 pay rules_db).0 ≡ ok p)
unfolding any
evaluate-returns_example =
    evaluate-returns plain first_fresh 5 pay rules_db trimmed-filled capability-filled
      (λ n. refl, refl)
