-- ===== src/Governance/Evaluation.antt =====
-- What Evaluate decides (internal/service/governance.go): every decision is explained by the rows
-- of the database at the time of the call.
use agent_os_backend.Prelude.{
  ℕ, Bool, true, false, ◌≡◌, refl, ap, Option, none, some, List, [], ◌∷◌, ◌++◌, arith, In, inl,
  if◌then◌else◌, String, string_eq, nat_eq, sym, subst,
}
use agent_os_backend.Errors.{Result, ok, err, record_not_found, database, invalid_governance_input}
use agent_os_backend.Db.{Db, ◌>>=◌, select, next, attempt}
use agent_os_backend.Db.Laws.{tables-select, select-ok, statement-ok, >>=-ok, raise-ok}
use agent_os_backend.Table.{find, filter, sort_by, or_not_found}
use agent_os_backend.Table.Finding.{find_sound, find-none, or_not_found-ok, or_not_found-err}
use agent_os_backend.Table.Members.{In-filter, filter-In, In-sort_by, sort_by-In, All-In}
use agent_os_backend.Table.Laws.{sort_by-head-le, IsOrder}
use agent_os_backend.Governance.Rows.{PolicyRule, PolicyDecision, KillSwitch, Tables, Fresh}
use agent_os_backend.Governance.Repo.{
  PolicyRuleMatchQuery, rule_matches, rule_before, switch_live, switch_before, switch_blocks,
  find_matching_policy_rules, find_active_kill_switch, create_policy_decision,
}
use agent_os_backend.Governance.Policies.{
  Externals, EvaluatePolicyInput, after_switch, decide_by_rules, persist_decision, match_query,
  switch_query, normalize_or_default, new_decision,
}
use agent_os_backend.Governance.Service.{evaluate}

rule_before-IsOrder : IsOrder rule_before
unfolding rule_before
rule_before-IsOrder = record { total = λ a b h. ground arith; trans = λ a b c h k. ground arith }

-- A switch that is in force now and concerns the request.
abbrev pub Blocking : Externals → ℕ → EvaluatePolicyInput → KillSwitch → Type 0
Blocking x now input sw =
    (switch_live now sw ≡ true) × (switch_blocks x.uuid_string (switch_query input now) sw ≡ true)

abbrev pub Unblocked : Externals → ℕ → EvaluatePolicyInput → Tables → Type 0
Unblocked x now input t = (sw : KillSwitch) → In sw t.switches → ¬ Blocking x now input sw

abbrev pub query_of : EvaluatePolicyInput → PolicyRuleMatchQuery
query_of input = match_query input (normalize_or_default input.risk_level "low")

-- Why a decision was made, from the rows `t`.
pub data Explained (x : Externals) (now : ℕ) (input : EvaluatePolicyInput) (t : Tables)
    (d : PolicyDecision) : Type 0 where
  by_switch :
      (sw : KillSwitch)
      → In sw t.switches
      → Blocking x now input sw
      → d.decision ≡ "deny"
      → d.kill_switch_id ≡ some sw.id
      → Explained x now input t d
  by_rule :
      Unblocked x now input t
      → (rule : PolicyRule) → In rule t.rules
      → rule_matches (query_of input) rule ≡ true
      → ((r : PolicyRule)
          → In r t.rules
          → rule_matches (query_of input) r ≡ true
          → rule_before rule r ≡ true)
      → d.decision ≡ rule.effect
      → d.policy_rule_id ≡ some rule.id
      → Explained x now input t d
  by_default :
      Unblocked x now input t
      → ((r : PolicyRule) → In r t.rules → ¬ (rule_matches (query_of input) r ≡ true))
      → d.decision ≡ "allow"
      → d.policy_rule_id ≡ none
      → d.kill_switch_id ≡ none
      → Explained x now input t d

-- The row is written, and no other.
abbrev pub Recorded : Tables → PolicyDecision → Tables → Type 0
Recorded t d t' = t' ≡ record t { decisions = t.decisions ++ d ∷ [] }

insert_decision :
    (row : PolicyDecision) (d : Db Tables) (u : Unit {0})
    → (create_policy_decision row d).0 ≡ ok u
    → Recorded d.tables row (create_policy_decision row d).1.tables
unfolding create_policy_decision
insert_decision row d u h = let k = statement-ok _ d u h in ground arith

persist_decision-Recorded :
    (fresh : Fresh) (input : EvaluatePolicyInput) (risk dec reason : String)
    (rule_id switch_id : Option ℕ) (now : ℕ) (d : Db Tables) (p : PolicyDecision)
    → (persist_decision fresh input risk dec reason rule_id switch_id now d).0 ≡ ok p
    → (p ≡ new_decision fresh input risk dec reason rule_id switch_id now)
      × Recorded d.tables p
          (persist_decision fresh input risk dec reason rule_id switch_id now d).1.tables
unfolding persist_decision
persist_decision-Recorded fresh input risk dec reason rule_id switch_id now d p h =
    let row = new_decision fresh input risk dec reason rule_id switch_id now in
    let (u, e, k) = >>=-ok (create_policy_decision row) (λ _ d'. (ok row, d')) d p h in
    (ground arith, ground (arith, insert_decision row d u e))

module _ (x : Externals) (now : ℕ) (input : EvaluatePolicyInput) (d : Db Tables) where
  live : List KillSwitch
  live = sort_by switch_before (filter (switch_live now) d.tables.switches)

  blocks : KillSwitch → Bool
  blocks = switch_blocks x.uuid_string (switch_query input now)

  abbrev lookup : Result KillSwitch × Db Tables
  lookup = find_active_kill_switch x.uuid_string now (switch_query input now) d

  lookup_result :
      lookup.0 ≡ (if d.refuses d.issued then err database else or_not_found (find blocks live))
  unfolding find_active_kill_switch select switch_query live blocks
  lookup_result = ground arith

  lookup_next : lookup.1 ≡ next d
  unfolding find_active_kill_switch select
  lookup_next = ground arith

  lookup-ok :
      (sw : KillSwitch) → lookup.0 ≡ ok sw → In sw d.tables.switches × Blocking x now input sw
  unfolding live blocks
  lookup-ok sw h =
      let found : find blocks live ≡ some sw =
        or_not_found-ok _ sw (ground (arith, lookup_result)) in
      let (inside, blocking) = find_sound blocks live sw found in
      let (stored, alive) =
        filter-In (switch_live now) d.tables.switches sw
          (sort_by-In switch_before (filter (switch_live now) d.tables.switches) sw inside) in
      (stored, (alive, blocking))

  lookup-err : lookup.0 ≡ err record_not_found → Unblocked x now input d.tables
  unfolding live blocks
  lookup-err h sw stored (alive, blocking) =
      let absent : find blocks live ≡ none =
        (or_not_found-err (find blocks live) record_not_found (ground (arith, lookup_result))).0 in
      let inside =
        In-sort_by switch_before (filter (switch_live now) d.tables.switches) sw
          (In-filter (switch_live now) d.tables.switches sw stored alive) in
      let clear = All-In (λ s. blocks s ≡ false) live sw (find-none blocks live absent) inside in
      cc (clear, blocking)

abbrev sorted_rules : EvaluatePolicyInput → Tables → List PolicyRule
sorted_rules input t = sort_by rule_before (filter (rule_matches (query_of input)) t.rules)

module _ (input : EvaluatePolicyInput) (t : Tables) where
  sorted_rules-In :
      (r : PolicyRule)
      → In r t.rules
      → rule_matches (query_of input) r ≡ true
      → In r (sorted_rules input t)
  sorted_rules-In r stored matching =
      In-sort_by rule_before (filter (rule_matches (query_of input)) t.rules) r
        (In-filter (rule_matches (query_of input)) t.rules r stored matching)

  no_rule :
      sorted_rules input t ≡ []
      → (r : PolicyRule) → In r t.rules
      → ¬ (rule_matches (query_of input) r ≡ true)
  no_rule e r stored matching = subst (λ l. In r l) e (sorted_rules-In r stored matching)

  first_rule :
      (rule : PolicyRule) (rest : List PolicyRule)
      → sorted_rules input t ≡ rule ∷ rest
      → In rule t.rules
        × (rule_matches (query_of input) rule ≡ true)
        × ((r : PolicyRule)
            → In r t.rules
            → rule_matches (query_of input) r ≡ true
            → rule_before rule r ≡ true)
  first_rule rule rest e =
      let (stored, matching) = filter-In (rule_matches (query_of input)) t.rules rule (
        sort_by-In rule_before (filter (rule_matches (query_of input)) t.rules) rule
          (subst (λ l. In rule l) (sym e) (inl refl))) in
      (
        stored,
        matching,
        λ r s m.
            All-In (λ a. rule_before rule a ≡ true) (sorted_rules input t) r
              (sort_by-head-le rule_before rule_before-IsOrder
                (filter (rule_matches (query_of input)) t.rules) rule rest e)
              (sorted_rules-In r s m),
      )

module _ (x : Externals) (fresh : Fresh) (now : ℕ) (input : EvaluatePolicyInput) (t : Tables)
    (clear : Unblocked x now input t) (d : Db Tables) (p : PolicyDecision) where
  decide_by_rules-Explained :
      (rules : List PolicyRule)
      → sorted_rules input t ≡ rules
      → (decide_by_rules fresh input (normalize_or_default input.risk_level "low") now rules d).0
        ≡ ok p
      → Explained x now input t p
        × Recorded d.tables p
            (decide_by_rules fresh input
              (normalize_or_default input.risk_level "low")
              now
              rules
              d).1.tables
  unfolding decide_by_rules new_decision
  decide_by_rules-Explained [] e h =
      let (s, r) = persist_decision-Recorded fresh input _ _ _ none none now d p h in
      (
        by_default clear (no_rule input t e) (ap (λ q. q.decision) s) (ap (λ q. q.policy_rule_id) s)
            (ap (λ q. q.kill_switch_id) s),
        r,
      )
  decide_by_rules-Explained (rule ∷ rest) e h =
      let (s, r) = persist_decision-Recorded fresh input _ _ _ (some rule.id) none now d p h in
      let (stored, matching, least) = first_rule input t rule rest e in
      (
        by_rule clear rule stored matching least (ap (λ q. q.decision) s)
            (ap (λ q. q.policy_rule_id) s),
        r,
      )

module _ (x : Externals) (fresh : Fresh) (now : ℕ) (input : EvaluatePolicyInput) (d : Db Tables)
    (p : PolicyDecision) where
  abbrev risk : String
  risk = normalize_or_default input.risk_level "low"

  rules-Explained :
      Unblocked x now input d.tables
      → ((find_matching_policy_rules (query_of input) >>= decide_by_rules fresh input risk now) d).0
        ≡ ok p
      → Explained x now input d.tables p
        × Recorded d.tables p
            ((find_matching_policy_rules (query_of input) >>= decide_by_rules fresh input risk now)
              d).1.tables
  unfolding find_matching_policy_rules
  rules-Explained clear h =
      let (rules, e, k) =
        >>=-ok (find_matching_policy_rules (query_of input)) (decide_by_rules fresh input risk now)
          d p h in
      let sorted : sorted_rules input d.tables ≡ rules = ground (arith, select-ok _ d rules e) in
      let same = tables-select (λ t. ok (sorted_rules input t)) d in
      let (why, row) =
        decide_by_rules-Explained x fresh now input d.tables clear
          (find_matching_policy_rules (query_of input) d).1 p rules sorted
          (subst (λ r. r.0 ≡ ok p) k h) in
      let after =
        decide_by_rules fresh input risk now rules
          (find_matching_policy_rules (query_of input) d).1 in
      (why, rw k (subst (λ s. Recorded s p after.1.tables) same row))

  after_switch-Explained :
      (found : Result KillSwitch)
      → ((sw : KillSwitch) → found ≡ ok sw → In sw d.tables.switches × Blocking x now input sw)
      → (found ≡ err record_not_found → Unblocked x now input d.tables)
      → (after_switch fresh input risk now found d).0 ≡ ok p
      → Explained x now input d.tables p
        × Recorded d.tables p (after_switch fresh input risk now found d).1.tables
  unfolding after_switch new_decision
  after_switch-Explained (ok sw) hit miss h =
      let (s, r) = persist_decision-Recorded fresh input _ _ _ none (some sw.id) now d p h in
      let (stored, blocking) = hit sw refl in
      (by_switch sw stored blocking (ap (λ q. q.decision) s) (ap (λ q. q.kill_switch_id) s), r)
  after_switch-Explained (err record_not_found) hit miss h = rules-Explained (miss refl) h
  after_switch-Explained (err _) hit miss h = cc

-- Whenever Evaluate returns a decision, it is one of three. Some live kill switch that concerns the
-- request stands in the table, and the decision is a denial that names one. Or none does, and the
-- decision is the effect of a matching rule that no matching rule comes before in the order of
-- priority and age. Or neither a switch nor a rule applies, and the request is allowed. The
-- decision is added to the table of decisions, and nothing else changes.
pub evaluate-Explained :
    (x : Externals) (fresh : Fresh) (now : ℕ) (input : EvaluatePolicyInput) (d : Db Tables)
    (p : PolicyDecision)
    → (evaluate x fresh now input d).0 ≡ ok p
    → Explained x now input d.tables p × Recorded d.tables p (evaluate x fresh now input d).1.tables
unfolding evaluate
evaluate-Explained x fresh now input d p h =
    let found = find_active_kill_switch x.uuid_string now (switch_query input now) in
    let (_, same) =
      raise-ok _ invalid_governance_input (attempt found >>= after_switch fresh input _ now) d p
        h in
    let kept : (found d).1.tables ≡ d.tables = ap (λ s. s.tables) (lookup_next x now input d) in
    let (why, row) =
      after_switch-Explained x fresh now input (found d).1 p (found d).0
        (λ sw e.
          subst (λ t. In sw t.switches × Blocking x now input sw) (sym kept)
            (lookup-ok x now input d sw e))
        (λ e. subst (Unblocked x now input) (sym kept) (lookup-err x now input d e))
        (subst (λ r. r.0 ≡ ok p) same h) in
    let after =
      after_switch fresh input (normalize_or_default input.risk_level "low") now (found d).0
        (found d).1 in
    (
      subst (λ t. Explained x now input t p) kept why,
      rw same (subst (λ t. Recorded t p after.1.tables) kept row),
    )
