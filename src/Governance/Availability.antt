-- ===== src/Governance/Availability.antt =====
-- Evaluate (internal/service/governance.go) answers where the database serves its statements.
use agent_os_backend.Prelude.{
  ℕ, String, false, ◌≡◌, ◌≢◌, ◌||◌, refl, ap, ◌∙◌, Option, none, some, List, [], ◌∷◌, arith, ◌==◌,
  nat_eq, string_eq, trim_space, if◌then◌else◌, eq_iff,
}
use agent_os_backend.Errors.{ok}
use agent_os_backend.Db.{Db, Exec, next, continue, statement}
use agent_os_backend.Db.Laws.{select-served}
use agent_os_backend.Table.{any, find, filter, sort_by, or_not_found}
use agent_os_backend.Governance.Rows.{Tables, PolicyDecision, PolicyRule, KillSwitch, Fresh}
use agent_os_backend.Governance.Repo.{
  create_policy_decision, find_matching_policy_rules, find_active_kill_switch, switch_blocks,
  switch_before, switch_live,
}
use agent_os_backend.Governance.Policies.{
  Externals, EvaluatePolicyInput, after_switch, decide_by_rules, persist_decision, new_decision,
  switch_query, normalize_or_default,
}
use agent_os_backend.Governance.Service.{evaluate}

-- The database serves every statement, and the new identifier is not taken.
abbrev pub Serves : Fresh → Db Tables → Type 0
Serves fresh d =
    ((n : ℕ) → d.refuses n ≡ false) × (any (λ r. r.id == fresh.id) d.tables.decisions ≡ false)

module _ (fresh : Fresh) (input : EvaluatePolicyInput) (risk : String) (now : ℕ) where
  abbrev Answers : Exec Tables PolicyDecision → Db Tables → Type 0
  Answers m d = (p : PolicyDecision) × ((m d).0 ≡ ok p)

  persist-Answers :
      (decision reason : String) (rule switch : Option ℕ) (d : Db Tables)
      → Serves fresh d
      → Answers (persist_decision fresh input risk decision reason rule switch now) d
  unfolding persist_decision create_policy_decision new_decision statement
  persist-Answers decision reason rule switch d (served, free) = (
    new_decision fresh input risk decision reason rule switch now,
    rw (served d.issued, free) refl,
  )

  rules-Answers :
      (rules : List PolicyRule) (d : Db Tables)
      → Serves fresh d
      → Answers (decide_by_rules fresh input risk now rules) d
  unfolding decide_by_rules
  rules-Answers [] d s = persist-Answers _ _ none none d s
  rules-Answers (rule ∷ rest) d s = persist-Answers _ _ (some rule.id) none d s

  switch-Answers :
      (found : Option KillSwitch) (d : Db Tables)
      → Serves fresh d
      → Answers (after_switch fresh input risk now (or_not_found found)) d
  unfolding after_switch find_matching_policy_rules
  switch-Answers (some sw) d s = persist-Answers _ _ none (some sw.id) d s
  switch-Answers none d s =
      let (p, e) = rules-Answers _ (next d) s in
      (
        p,
        ap (λ r. (continue (decide_by_rules fresh input risk now) r.0 r.1).0)
              (select-served _ d (s.0 d.issued))
            ∙ e,
      )

-- Evaluate returns a decision on every request that names a subject type and a capability, where
-- the database serves every statement and the identifier of the new row is not taken.
pub evaluate-returns :
    (x : Externals) (fresh : Fresh) (now : ℕ) (input : EvaluatePolicyInput) (d : Db Tables)
    → trim_space input.subject_type ≢ ""
    → trim_space input.capability_key ≢ ""
    → Serves fresh d
    → (p : PolicyDecision) × ((evaluate x fresh now input d).0 ≡ ok p)
unfolding evaluate find_active_kill_switch
evaluate-returns x fresh now input d named keyed s =
    let there : (trim_space input.subject_type == "" || trim_space input.capability_key == "")
        ≡ false =
      ground (
        arith,
        eq_iff (trim_space input.subject_type) "",
        eq_iff (trim_space input.capability_key) "",
      ) in
    let query = switch_query input now in
    let at = if query.now == 0 then now else query.now in
    let found =
      find (switch_blocks x.uuid_string query)
        (sort_by switch_before (filter (switch_live at) d.tables.switches)) in
    let (p, e) =
      switch-Answers fresh input (normalize_or_default input.risk_level "low") now found (next d)
        s in
    (
      p,
      rw (there, evaluate)
          (ap
              (λ r.
                (after_switch fresh input (normalize_or_default input.risk_level "low") now r.0
                  r.1).0)
              (select-served _ d (s.0 d.issued))
            ∙ e),
    )
