-- ===== src/Governance/Enforcement.antt =====
-- What the enforcer guarantees (internal/service/governance_enforcer.go), whichever statements the
-- database refuses.
use agent_os_backend.Prelude.{
  ℕ, String, true, false, not, ◌≡◌, ◌≢◌, ◌⊎◌, ◌↔◌, ◌∙◌, refl, ap, sym, subst, Option, none, some,
  arith, In, inl, inr, ◌==◌, ◌!=◌, string_eq, nat_eq, if◌then◌else◌, Bool-cases, eq_iff,
}
use agent_os_backend.Errors.{
  Result, ok, err, invalid_governance_input, governance_denied, governance_approval_required,
}
use agent_os_backend.Db.{Db, continue}
use agent_os_backend.Db.Laws.{>>=-ok, map-ok}
use agent_os_backend.Governance.Rows.{Tables, PolicyDecision, ApprovalReceipt, KillSwitch}
use agent_os_backend.Governance.Policies.{Externals, EvaluatePolicyInput}
use agent_os_backend.Governance.Service.{
  create_approval_receipt, evaluate, consume_approval_receipt_for_operation,
}
use agent_os_backend.Governance.Enforcer.{
  GovernanceEnforcer, GovernanceEnforcementInput, Chance, Outcome, outcome_of,
  GovernanceEnforcementResult, mode_for, enforce, approver, consult, consume_token, after_decision,
  request_approval, after_consume, evaluation_of, approval_of, consumption_of,
}
use agent_os_backend.Governance.Evaluation.{
  Blocking, Explained, by_switch, by_rule, by_default, evaluate-Explained,
}

module _ (x : Externals) (chance : Chance) (input : GovernanceEnforcementInput) (mode : String)
    (d : Db Tables) (o : Outcome) where
  consult-ok :
      (consult x chance input mode d).0 ≡ ok o
      → (p : PolicyDecision) × ((evaluate x chance.decision chance.now (evaluation_of input) d).0
          ≡ ok p)
        × (consult x chance input mode d
            ≡ after_decision x chance input mode p
                (evaluate x chance.decision chance.now (evaluation_of input) d).1)
  unfolding consult
  consult-ok h =
      >>=-ok (evaluate x chance.decision chance.now (evaluation_of input))
        (after_decision x chance input mode) d o h

-- `Enforce` with a policy to evaluate: no token was sent, and enforcement is on.
abbrev pub Consults : GovernanceEnforcer → GovernanceEnforcementInput → String → Type 0
Consults e input mode =
    (e.configured ≡ true)
    × (mode_for e.config input.subject_type ≡ mode)
    × (input.approval_token ≡ "")
    × (mode ≢ "disabled")

enforce-consult :
    (x : Externals) (e : GovernanceEnforcer) (chance : Chance) (input : GovernanceEnforcementInput)
    (mode : String) (d : Db Tables)
    → Consults e input mode
    → enforce x e chance input d ≡ consult x chance input mode d
unfolding enforce
enforce-consult x e chance input mode d (on, m, t, running) =
    ground (arith, eq_iff mode "disabled", eq_iff input.approval_token "")

deny_decision :
    (x : Externals) (chance : Chance) (input : GovernanceEnforcementInput) (p : PolicyDecision)
    (d : Db Tables)
    → p.decision ≡ "deny"
    → after_decision x chance input "enforce" p d
      ≡ (ok (outcome_of false "enforce" true (some p), some governance_denied), d)
unfolding after_decision
deny_decision x chance input p d h = rw h

blocked-deny :
    (x : Externals) (now : ℕ) (input : EvaluatePolicyInput) (t : Tables) (sw : KillSwitch)
    (p : PolicyDecision)
    → In sw t.switches
    → Blocking x now input sw
    → Explained x now input t p
    → p.decision ≡ "deny"
blocked-deny x now input t sw p stored blocking (by_switch _ _ _ e _) = e
blocked-deny x now input t sw p stored blocking (by_rule clear _ _ _ _ _ _) =
    absurd (clear sw stored blocking)
blocked-deny x now input t sw p stored blocking (by_default clear _ _ _ _) =
    absurd (clear sw stored blocking)

-- In enforce mode, while a live kill switch concerns a request that carries no approval token, the
-- request is denied: Enforce fails, or it returns a result that is not allowed and the error
-- ErrGovernanceDenied.
pub kill_switch-stops-enforce :
    (x : Externals) (e : GovernanceEnforcer) (chance : Chance) (input : GovernanceEnforcementInput)
    (d : Db Tables) (sw : KillSwitch) (o : Outcome)
    → Consults e input "enforce"
    → In sw d.tables.switches
    → Blocking x chance.now (evaluation_of input) sw
    → (enforce x e chance input d).0 ≡ ok o
    → (o.0.allowed ≡ false) × (o.1 ≡ some governance_denied)
kill_switch-stops-enforce x e chance input d sw o c stored blocking h =
    let same = enforce-consult x e chance input "enforce" d c in
    let (p, evaluated, result) =
      consult-ok x chance input "enforce" d o (subst (λ r. r.0 ≡ ok o) same h) in
    let why =
      (evaluate-Explained x chance.decision chance.now (evaluation_of input) d p evaluated).0 in
    let denied =
      deny_decision x chance input p _
        (blocked-deny x chance.now (evaluation_of input) d.tables sw p stored blocking why) in
    let k : ◌≡◌ {A = Result Outcome} (ok o)
        (ok (outcome_of false "enforce" true (some p), some governance_denied)) =
      sym h ∙ ap (λ r. r.0) (same ∙ result ∙ denied) in
    ground arith

request_approval-ok :
    (x : Externals) (chance : Chance) (input : GovernanceEnforcementInput) (p : PolicyDecision)
    (r : GovernanceEnforcementResult) (actor : Option ℕ) (d : Db Tables) (o : Outcome)
    → (request_approval x chance input p r actor d).0 ≡ ok o
    → (o.0.allowed ≡ r.allowed)
      × (o.0.decision ≡ r.decision)
      × (o.0.consumed_approval_receipt ≡ r.consumed_approval_receipt)
      × (o.1 ≡ some governance_approval_required)
unfolding request_approval
request_approval-ok x chance input p r none d o h = ground arith
request_approval-ok x chance input p r (some a) d o h =
    let (made, _, e) =
      map-ok
        (create_approval_receipt x chance.receipt chance.now chance.random
          (approval_of chance input p a))
        (λ made. (
          record r { approval_receipt = some made.0; approval_token = made.1 },
          some governance_approval_required,
        ))
        d o h in
    ground arith

-- What a decision means in the two modes.
observe_decision :
    (x : Externals) (chance : Chance) (input : GovernanceEnforcementInput) (p : PolicyDecision)
    (d : Db Tables)
    → after_decision x chance input "observe" p d
      ≡ (ok (outcome_of true "observe" (p.decision != "allow") (some p), none), d)
unfolding after_decision
observe_decision x chance input p d = refl

enforce_decision :
    (x : Externals) (chance : Chance) (input : GovernanceEnforcementInput) (p : PolicyDecision)
    (d : Db Tables) (o : Outcome)
    → (after_decision x chance input "enforce" p d).0 ≡ ok o
    → (o.0.allowed ≡ (p.decision == "allow"))
      × (o.0.decision ≡ some p)
      × (o.0.consumed_approval_receipt ≡ none)
      × ((o.1 ≡ none) ↔ (p.decision ≡ "allow"))
unfolding after_decision
enforce_decision x chance input p d o h = ground (
  arith,
  request_approval-ok x chance input p (outcome_of false "enforce" true (some p))
      (approver input.actor_user_id) d o,
  eq_iff p.decision "allow",
)

module _ (x : Externals) (e : GovernanceEnforcer) (chance : Chance)
    (input : GovernanceEnforcementInput) (d : Db Tables) (o : Outcome) where
  -- What an allowing call in enforce mode rests on: a receipt that it consumed, or a decision.
  abbrev pub Justified : Type 0
  Justified =
      ((receipt : ApprovalReceipt) × ((consume_approval_receipt_for_operation x chance.now
            (consumption_of input) d).0
          ≡ ok receipt)
        × (o.0.consumed_approval_receipt ≡ some receipt))
      ⊎ ((p : PolicyDecision) × ((evaluate x chance.decision chance.now (evaluation_of input) d).0
            ≡ ok p)
          × (p.decision ≡ "allow")
          × (o.0.decision ≡ some p))

  consulted :
      (consult x chance input "enforce" d).0 ≡ ok o → o.0.allowed ≡ true → (o.1 ≡ none) × Justified
  consulted h a =
      let (p, evaluated, result) = consult-ok x chance input "enforce" d o h in
      let (k, row, _, quiet) =
        enforce_decision x chance input p _ o (subst (λ r. r.0 ≡ ok o) result h) in
      let allowing : p.decision ≡ "allow" = (eq_iff _ _).0 (sym k ∙ a) in
      (quiet.1 allowing, inr (p, evaluated, allowing, row))

  consumed :
      (r : Result ApprovalReceipt)
      → (consume_approval_receipt_for_operation x chance.now (consumption_of input) d).0 ≡ r
      → after_consume "enforce" r ≡ o
      → o.0.allowed ≡ true
      → (o.1 ≡ none) × Justified
  unfolding after_consume
  consumed (ok receipt) k h a = (ground arith, inl (receipt, k, ground arith))
  consumed (err _) k h a = absurd (ground arith)

  consumed_token :
      (consume_token x chance input "enforce" d).0 ≡ ok o
      → o.0.allowed ≡ true
      → (o.1 ≡ none) × Justified
  unfolding consume_token
  consumed_token h a =
      consumed (consume_approval_receipt_for_operation x chance.now (consumption_of input) d).0 refl
        (ground arith) a

  strictly :
      mode_for e.config input.subject_type ≡ "enforce"
      → (enforce x e chance input d).0 ≡ ok o
      → (if input.approval_token != ""
          then (consume_token x chance input "enforce" d).0
          else (consult x chance input "enforce" d).0)
        ≡ ok o
  unfolding enforce
  strictly m h = elim (Bool-cases e.configured) [
    | inl on ↦ elim (Bool-cases (input.approval_token != "")) [
      | inl t ↦ rw t (rw (m, enforce, on, t) at h)
      | inr t ↦ rw t (rw (m, enforce, on, t) at h)
    ]
    | inr off ↦ absurd (
        let k : ◌≡◌ {A = Result Outcome} (err invalid_governance_input) (ok o) =
          rw (off, enforce) at h in
        cc)
  ]

  -- In enforce mode a request is allowed for one of two reasons only: it consumed an approval
  -- receipt, or the policy was evaluated to the decision "allow". There is no error beside the
  -- result then.
  pub enforce-Justified :
      mode_for e.config input.subject_type ≡ "enforce"
      → (enforce x e chance input d).0 ≡ ok o
      → o.0.allowed ≡ true
      → (o.1 ≡ none) × Justified
  enforce-Justified m h a = elim (Bool-cases (input.approval_token != "")) [
    | inl t ↦ consumed_token (rw t at (strictly m h)) a
    | inr t ↦ consulted (rw t at (strictly m h)) a
  ]

module _ (x : Externals) (chance : Chance) (input : GovernanceEnforcementInput)
    (d : Db Tables) where
  -- what a result of observe mode says of the call in enforce mode
  abbrev Foretold : GovernanceEnforcementResult → Result Outcome → Type 0
  Foretold o (ok o') =
      (o.would_have_blocked ≡ not o'.0.allowed)
      × (o.decision ≡ o'.0.decision)
      × (o.consumed_approval_receipt ≡ o'.0.consumed_approval_receipt)
  Foretold o (err e) = o.would_have_blocked ≡ true

  -- what a call in observe mode does beside the same call in enforce mode
  abbrev pub Foretells : Result Outcome → Result Outcome → Type 0
  Foretells (ok o) strict = (o.0.allowed ≡ true) × (o.1 ≡ none) × Foretold o.0 strict
  Foretells (err e) strict =
      (input.approval_token ≡ "")
      × ((evaluate x chance.decision chance.now (evaluation_of input) d).0 ≡ err e)
      × (strict ≡ err e)

  consumed-Foretells :
      (r : Result ApprovalReceipt)
      → Foretells (ok (after_consume "observe" r)) (ok (after_consume "enforce" r))
  unfolding after_consume
  consumed-Foretells (ok receipt) = (refl, refl, (refl, refl, refl))
  consumed-Foretells (err e) = (refl, refl, (refl, refl, refl))

  decided-Foretold :
      (p : PolicyDecision) (after : Db Tables) (r : Result Outcome)
      → (after_decision x chance input "enforce" p after).0 ≡ r
      → Foretold (outcome_of true "observe" (p.decision != "allow") (some p)) r
  unfolding after_decision
  decided-Foretold p after (ok o) h =
      let (allowed, row, none_consumed, _) = enforce_decision x chance input p after o h in
      (ground arith, sym row, sym none_consumed)
  decided-Foretold p after (err e) h = ground arith

  consulted-Foretells :
      (r : Result PolicyDecision) (after : Db Tables)
      → input.approval_token ≡ ""
      → (evaluate x chance.decision chance.now (evaluation_of input) d).0 ≡ r
      → Foretells
          (continue (after_decision x chance input "observe") r after).0
          (continue (after_decision x chance input "enforce") r after).0
  consulted-Foretells (ok p) after t h =
      rw (observe_decision x chance input p after) (refl, refl, decided-Foretold p after _ refl)
  consulted-Foretells (err e) after t h = (t, h, refl)

  -- Two configured enforcers, one in observe mode and one in enforce mode, on the same request and
  -- database, however the database fails. The call in observe mode returns an error only where the
  -- request carries no approval token and Evaluate fails, with Evaluate's error, and enforce mode then
  -- returns the same one. Otherwise it lets the request pass and foretells enforce mode: where that
  -- returns a result, the decision and the consumed receipt are the same and `would_have_blocked` says
  -- whether it is not allowed; where it returns an error alone, `would_have_blocked` is set.
  pub observe-Foretells :
      (watching strict : GovernanceEnforcer)
      → watching.configured ≡ true
      → strict.configured ≡ true
      → mode_for watching.config input.subject_type ≡ "observe"
      → mode_for strict.config input.subject_type ≡ "enforce"
      → Foretells (enforce x watching chance input d).0 (enforce x strict chance input d).0
  unfolding enforce consume_token consult
  observe-Foretells watching strict on on' m m' = elim (Bool-cases (input.approval_token != "")) [
    | inl t ↦ rw (on, on', m, m', t) (consumed-Foretells _)
    | inr t ↦
        rw (on, on', m, m', t)
          (consulted-Foretells _ _ (ground (arith, eq_iff input.approval_token "")) refl)
  ]
