-- ===== src/Examples/Pages.antt =====
-- The theorem on the administrators' lists at a concrete input.
use agent_os_backend.Prelude.{◌≤◌, true, [], ◌∷◌, ◌≡◌, refl, In, trim_space}
use agent_os_backend.Prelude.Int.{pos, negsuc}
use agent_os_backend.Db.{Db, select}
use agent_os_backend.Table.{filter, count, sort_by, insert_by}
use agent_os_backend.Governance.Rows.{PolicyDecision, no_rows, Tables}
use agent_os_backend.Governance.Policies.{normalize_page}
use agent_os_backend.Governance.Listing.{
  Page, ListPolicyDecisionsInput, list_policy_decisions, list_page, list_rows, slice,
  decision_listed, narrows,
}
use agent_os_backend.Governance.Pages.{list_policy_decisions-ok}
use agent_os_backend.Examples.Governance.{served, denied}

abbrev denials : ListPolicyDecisionsInput
denials = record {
  subject_type = "";
  subject_id = "";
  capability_key = "";
  decision = "deny";
  risk_level = "";
}

abbrev decided_db : Db Tables
decided_db =
    served
      (record no_rows { decisions = denied ∷ record denied { id = 101; decision = "allow" } ∷ [] })

abbrev page : Page PolicyDecision
page = record { items = denied ∷ []; limit = pos 50; offset = pos 0; total = 1 }

list_policy_decisions-ok_example :
    (1 ≤ 100)
    × ((p : PolicyDecision)
        → In p (denied ∷ [])
        → In p decided_db.tables.decisions × (decision_listed denials p ≡ true))
    × (1 ≡ count (decision_listed denials) decided_db.tables.decisions)
unfolding list_policy_decisions list_page list_rows normalize_page slice select filter count sort_by
    decision_listed narrows insert_by trim_space
list_policy_decisions-ok_example =
    list_policy_decisions-ok denials (pos 0) (negsuc 3) decided_db page refl
