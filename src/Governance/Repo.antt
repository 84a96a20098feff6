-- ===== src/Governance/Repo.antt =====
-- internal/repository/governance_repo.go. An INSERT fails on a key that a row already has: the
-- primary key, and the unique columns of migrations/025 (`key`, `token_hash`).
use agent_os_backend.Prelude.{
  ℕ, String, Bool, true, false, ◌&&◌, ◌||◌, Option, none, some, List, [], ◌∷◌, ◌++◌, leb, ltb, ◌==◌,
  ◌!=◌, nat_eq, string_eq, option_eq, if◌then◌else◌,
}
use agent_os_backend.Prelude.Int.{leb_ℤ, ltb_ℤ}
use agent_os_backend.Errors.{Result, ok, err, duplicate_key, invalid_data}
use agent_os_backend.Db.{Exec, ◌>>=◌, lift, select, statement, transaction}
use agent_os_backend.Table.{first, filter, any, update, sort_by}
use agent_os_backend.Json.{JsonMap, put, text, instant}
use agent_os_backend.Governance.Rows.{
  CapabilityDefinition, PolicyRule, PolicyDecision, ApprovalReceipt, KillSwitch,
  GovernanceScanResult, Tables,
}

unfoldable pub create_capability : CapabilityDefinition → Exec Tables (Unit {0})
create_capability c = statement λ t.
    if any (λ r. r.id == c.id || r.key == c.key) t.capabilities
    then err duplicate_key
    else ok (tt, record t { capabilities = t.capabilities ++ c ∷ [] })

unfoldable pub create_policy_rule : PolicyRule → Exec Tables (Unit {0})
create_policy_rule r = statement λ t.
    if any (λ x. x.id == r.id) t.rules
    then err duplicate_key
    else ok (tt, record t { rules = t.rules ++ r ∷ [] })

pub record PolicyRuleMatchQuery : Type 0 where
  pub capability_key : String
  pub subject_type : String
  pub subject_id : String
  pub actor_user_id : Option ℕ
  pub risk_level : String

-- the actor's condition of the WHERE clause
unfoldable pub actor_matches : Option ℕ → Option ℕ → Bool
actor_matches none rule_actor = rule_actor == none
actor_matches (some a) rule_actor =
    if a != 0 then rule_actor == some a || rule_actor == none else rule_actor == none

unfoldable pub rule_matches : PolicyRuleMatchQuery → PolicyRule → Bool
unfolding actor_matches
rule_matches q r =
    r.status == "active"
    && (r.capability_key == q.capability_key || r.capability_key == "")
    && (r.subject_type == q.subject_type || r.subject_type == "")
    && (r.subject_id == q.subject_id || r.subject_id == "")
    && (r.risk_level == q.risk_level || r.risk_level == "")
    && actor_matches q.actor_user_id r.actor_user_id

-- ORDER BY priority ASC, created_at ASC
unfoldable pub rule_before : PolicyRule → PolicyRule → Bool
rule_before a b =
    if ltb_ℤ a.priority b.priority
    then true
    else leb_ℤ a.priority b.priority && leb a.created_at b.created_at

unfoldable pub find_matching_policy_rules : PolicyRuleMatchQuery → Exec Tables (List PolicyRule)
find_matching_policy_rules q =
    select λ t. ok (sort_by rule_before (filter (rule_matches q) t.rules))

unfoldable pub create_policy_decision : PolicyDecision → Exec Tables (Unit {0})
create_policy_decision d = statement λ t.
    if any (λ x. x.id == d.id) t.decisions
    then err duplicate_key
    else ok (tt, record t { decisions = t.decisions ++ d ∷ [] })

unfoldable pub get_policy_decision : ℕ → Exec Tables PolicyDecision
get_policy_decision id = select λ t. first (λ d. d.id == id) t.decisions

pub record KillSwitchQuery : Type 0 where
  pub scope_type : String
  pub scope_id : String
  pub capability_key : String
  pub actor_user_id : Option ℕ
  pub now : ℕ

-- status = 'active' AND (expires_at IS NULL OR expires_at > now)
unfoldable pub switch_live : ℕ → KillSwitch → Bool
switch_live now sw =
    sw.status == "active" && elim sw.expires_at [ none ↦ true | some e ↦ ltb now e ]

-- ORDER BY created_at ASC
unfoldable pub switch_before : KillSwitch → KillSwitch → Bool
switch_before a b = leb a.created_at b.created_at

-- `uuid_string` is the UUID library's `String`.
module _ (uuid_string : ℕ → String) where
  -- the body of the loop over the live switches
  unfoldable pub switch_blocks : KillSwitchQuery → KillSwitch → Bool
  switch_blocks q sw =
      if sw.scope_type == "global"
      then true
      else ((sw.scope_type == "plugin" || sw.scope_type == "user" || sw.scope_type == "server")
            && sw.scope_id == q.scope_id
          || sw.scope_type == "capability" && sw.scope_id == q.capability_key
          || elim q.actor_user_id [
            | none ↦ false
            | some a ↦ sw.scope_type == "user" && sw.scope_id == uuid_string a
          ])

  -- `clock` is the time.Now() that stands in for a zero `Now`.
  unfoldable pub find_active_kill_switch : ℕ → KillSwitchQuery → Exec Tables KillSwitch
  find_active_kill_switch clock q =
      let now = if q.now == 0 then clock else q.now in
      select
        λ t. first (switch_blocks q) (sort_by switch_before (filter (switch_live now) t.switches))

unfoldable pub create_kill_switch : KillSwitch → Exec Tables (Unit {0})
create_kill_switch k = statement λ t.
    if any (λ x. x.id == k.id) t.switches
    then err duplicate_key
    else ok (tt, record t { switches = t.switches ++ k ∷ [] })

unfoldable pub create_approval_receipt : ApprovalReceipt → Exec Tables (Unit {0})
create_approval_receipt r = statement λ t.
    if any (λ x. x.id == r.id || x.token_hash == r.token_hash) t.receipts
    then err duplicate_key
    else ok (tt, record t { receipts = t.receipts ++ r ∷ [] })

-- tx.Save(&receipt), of a row that the transaction has read and locked
unfoldable pub save_receipt : ApprovalReceipt → Exec Tables ApprovalReceipt
save_receipt r = statement λ t.
    if any (λ x. x.id != r.id && x.token_hash == r.token_hash) t.receipts
    then err duplicate_key
    else ok (r, record t { receipts = update (λ x. x.id == r.id) (λ _. r) t.receipts })

-- metadata["revoked_at"] = …; if reason != "" { metadata["revocation_reason"] = reason }
noted : String → String → String → ℕ → JsonMap → JsonMap
unfolding put
noted at_key reason_key reason now m =
    let stamped = put at_key (instant now) m in
    if reason != "" then put reason_key (text reason) stamped else stamped

unfoldable pub revoke_receipt : String → ℕ → ApprovalReceipt → Result ApprovalReceipt
unfolding noted
revoke_receipt reason now r =
    if r.status != "pending"
    then err invalid_data
    else ok (record r {
      status = "revoked";
      metadata = noted "revoked_at" "revocation_reason" reason now r.metadata;
    })

unfoldable pub revoke_approval_receipt : ℕ → String → ℕ → Exec Tables ApprovalReceipt
revoke_approval_receipt id reason now = transaction do
  receipt ← select (λ t. first (λ r. r.id == id) t.receipts)
  revoked ← lift (revoke_receipt reason now receipt)
  save_receipt revoked

unfoldable pub reissue_receipt : String → String → ℕ → ℕ → ApprovalReceipt → Result ApprovalReceipt
unfolding noted
reissue_receipt token_hash reason expires_at now r =
    if r.status != "pending" || leb r.expires_at now
    then err invalid_data
    else ok (record r {
      token_hash = token_hash;
      expires_at = expires_at;
      metadata = noted "token_reissued_at" "token_reissue_reason" reason now r.metadata;
    })

unfoldable pub reissue_approval_receipt_token :
    ℕ → String → String → ℕ → ℕ → Exec Tables ApprovalReceipt
reissue_approval_receipt_token id token_hash reason expires_at now = transaction do
  receipt ← select (λ t. first (λ r. r.id == id) t.receipts)
  reissued ← lift (reissue_receipt token_hash reason expires_at now receipt)
  save_receipt reissued

pub record ApprovalReceiptConsumeConstraints : Type 0 where
  pub actor_user_id : Option ℕ
  pub subject_type : String
  pub subject_id : String
  pub capability_key : String

-- a constraint that is left empty is not checked
unfoldable pub meets : ApprovalReceiptConsumeConstraints → ApprovalReceipt → Bool
meets c r =
    elim c.actor_user_id [ none ↦ true | some a ↦ a == 0 || r.actor_user_id == a ]
    && (c.subject_type == "" || r.subject_type == c.subject_type)
    && (c.subject_id == "" || r.subject_id == c.subject_id)
    && (c.capability_key == "" || r.capability_key == c.capability_key)

unfoldable pub consume_receipt :
    String → ℕ → ApprovalReceiptConsumeConstraints → ApprovalReceipt → Result ApprovalReceipt
consume_receipt consumed_by now c r =
    if r.status != "pending" || leb r.expires_at now
    then err invalid_data
    else if meets c r
    then ok (record r { status = "consumed"; consumed_at = some now; consumed_by = consumed_by })
    else err invalid_data

unfoldable pub consume_approval_receipt_by_token_hash :
    String → String → ℕ → ApprovalReceiptConsumeConstraints → Exec Tables ApprovalReceipt
consume_approval_receipt_by_token_hash token_hash consumed_by now c = transaction do
  receipt ← select (λ t. first (λ r. r.token_hash == token_hash) t.receipts)
  consumed ← lift (consume_receipt consumed_by now c receipt)
  save_receipt consumed

unfoldable pub create_scan_result : GovernanceScanResult → Exec Tables (Unit {0})
create_scan_result r = statement λ t.
    if any (λ x. x.id == r.id) t.scans
    then err duplicate_key
    else ok (tt, record t { scans = t.scans ++ r ∷ [] })

unfoldable pub resolve_scan_result : ℕ → ℕ → ℕ → Exec Tables GovernanceScanResult
resolve_scan_result id resolved_by now = transaction do
  found ← select (λ t. first (λ r. r.id == id) t.scans)
  let resolved = record found {
    status = "resolved";
    resolved_at = some now;
    resolved_by = if resolved_by != 0 then some resolved_by else found.resolved_by;
  }
  statement
      λ t. ok (resolved, record t { scans = update (λ x. x.id == id) (λ _. resolved) t.scans })
