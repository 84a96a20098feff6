-- ===== src/Governance/Listing.antt =====
-- The queries for the administrators' lists: List… of internal/service/governance.go and
-- internal/repository/governance_repo.go. Rows that an ORDER BY leaves tied keep the order of their
-- insertion here.
use agent_os_backend.Prelude.{
  ℕ, String, Bool, true, ◌&&◌, ◌||◌, List, leb, ltb, ◌==◌, string_eq, trim_space, take, drop,
}
use agent_os_backend.Prelude.Int.{ℤ, leb_ℤ, ltb_ℤ, pos_part}
use agent_os_backend.Errors.{ok}
use agent_os_backend.Db.{Exec, ◌>>=◌, pure, select}
use agent_os_backend.Table.{filter, count, sort_by, first}
use agent_os_backend.Governance.Rows.{
  CapabilityDefinition, PolicyRule, PolicyDecision, ApprovalReceipt, GovernanceScanResult, Tables,
}
use agent_os_backend.Governance.Policies.{normalize_page}

-- one page, with the total of the rows that meet the filter
pub record Page (A : Type 0) : Type 0 where
  pub items : List A
  pub limit : ℤ
  pub offset : ℤ
  pub total : ℕ

-- LIMIT limit OFFSET offset
unfoldable pub slice : {A : Type 0} → ℤ → ℤ → List A → List A
slice limit offset rows = take (pos_part limit) (drop (pos_part offset) rows)

-- The two statements of every list: count, then find the page in its order.
module _ {A : Type 0} (rows : Tables → List A) (p : A → Bool) (before : A → A → Bool) where
  unfoldable pub list_rows : ℤ → ℤ → Exec Tables (List A × ℕ)
  unfolding slice
  list_rows limit offset = do
    total ← select (λ t. ok (count p (rows t)))
    items ← select (λ t. ok (slice limit offset (sort_by before (filter p (rows t)))))
    pure (items, total)

  -- the service around it
  unfoldable pub list_page : ℤ → ℤ → Exec Tables (Page A)
  unfolding list_rows
  list_page limit offset = do
    let (limit', offset') = normalize_page limit offset
    found ← list_rows limit' offset'
    pure (record { items = found.0; limit = limit'; offset = offset'; total = found.1 })

unfoldable pub list_capabilities : ℤ → ℤ → Exec Tables (Page CapabilityDefinition)
unfolding list_page
list_capabilities =
    list_page (λ t. t.capabilities) (λ _. true) (λ a b. leb b.created_at a.created_at)

-- ORDER BY priority ASC, created_at DESC
unfoldable pub listed_before : PolicyRule → PolicyRule → Bool
listed_before a b =
    ltb_ℤ a.priority b.priority || leb_ℤ a.priority b.priority && leb b.created_at a.created_at

unfoldable pub list_policy_rules : ℤ → ℤ → Exec Tables (Page PolicyRule)
unfolding list_page listed_before
list_policy_rules = list_page (λ t. t.rules) (λ _. true) listed_before

-- an empty filter field does not filter
unfoldable pub narrows : String → String → Bool
narrows wanted value = wanted == "" || value == wanted

pub record ListPolicyDecisionsInput : Type 0 where
  pub subject_type : String
  pub subject_id : String
  pub capability_key : String
  pub decision : String
  pub risk_level : String

unfoldable pub decision_listed : ListPolicyDecisionsInput → PolicyDecision → Bool
unfolding narrows
decision_listed f d =
    narrows (trim_space f.subject_type) d.subject_type
    && narrows (trim_space f.subject_id) d.subject_id
    && narrows (trim_space f.capability_key) d.capability_key
    && narrows (trim_space f.decision) d.decision
    && narrows (trim_space f.risk_level) d.risk_level

-- ORDER BY decided_at DESC, created_at DESC
unfoldable pub decided_before : PolicyDecision → PolicyDecision → Bool
decided_before a b =
    ltb b.decided_at a.decided_at || leb b.decided_at a.decided_at && leb b.created_at a.created_at

unfoldable pub list_policy_decisions :
    ListPolicyDecisionsInput → ℤ → ℤ → Exec Tables (Page PolicyDecision)
unfolding list_page decision_listed decided_before
list_policy_decisions input = list_page (λ t. t.decisions) (decision_listed input) decided_before

pub record ListApprovalReceiptsInput : Type 0 where
  pub subject_type : String
  pub subject_id : String
  pub capability_key : String
  pub status : String

unfoldable pub receipt_listed : ListApprovalReceiptsInput → ApprovalReceipt → Bool
unfolding narrows
receipt_listed f r =
    narrows (trim_space f.subject_type) r.subject_type
    && narrows (trim_space f.subject_id) r.subject_id
    && narrows (trim_space f.capability_key) r.capability_key
    && narrows (trim_space f.status) r.status

unfoldable pub list_approval_receipts :
    ListApprovalReceiptsInput → ℤ → ℤ → Exec Tables (Page ApprovalReceipt)
unfolding list_page receipt_listed
list_approval_receipts input =
    list_page (λ t. t.receipts) (receipt_listed input) (λ a b. leb b.created_at a.created_at)

pub record ListScanResultsInput : Type 0 where
  pub subject_type : String
  pub subject_id : String
  pub scanner : String
  pub severity : String
  pub status : String

unfoldable pub scan_listed : ListScanResultsInput → GovernanceScanResult → Bool
unfolding narrows
scan_listed f r =
    narrows (trim_space f.subject_type) r.subject_type
    && narrows (trim_space f.subject_id) r.subject_id
    && narrows (trim_space f.scanner) r.scanner
    && narrows (trim_space f.severity) r.severity
    && narrows (trim_space f.status) r.status

unfoldable pub list_scan_results :
    ListScanResultsInput → ℤ → ℤ → Exec Tables (Page GovernanceScanResult)
unfolding list_page scan_listed
list_scan_results input =
    list_page (λ t. t.scans) (scan_listed input) (λ a b. leb b.created_at a.created_at)

unfoldable pub get_capability_by_key : String → Exec Tables CapabilityDefinition
get_capability_by_key key = select λ t. first (λ c. c.key == key) t.capabilities
