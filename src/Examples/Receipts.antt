-- ===== src/Examples/Receipts.antt =====
-- The theorems on approval receipts at concrete inputs.
use agent_os_backend.Prelude.{
  none, some, List, [], ◌∷◌, ◌≡◌, ◌≢◌, refl, inl, inr, arith, In, ◌∙◌, eq_iff, sym, trim_space,
}
use agent_os_backend.Examples.Governance.{plain, served}
use agent_os_backend.Db.{Db, transaction, select, statement}
use agent_os_backend.Governance.Edits.{IsKeyed}
use agent_os_backend.Governance.Receipts.{calls, Call, calls-final, revokes, call, consumes}
use agent_os_backend.Governance.Rows.{ApprovalReceipt, Tables, no_rows}
use agent_os_backend.Governance.Service.{
  ConsumeApprovalReceiptInput, consume_approval_receipt_for_operation, or_invalid_receipt,
}
use agent_os_backend.Governance.Repo.{
  consume_approval_receipt_by_token_hash, save_receipt, consume_receipt, meets,
}
use agent_os_backend.Json.{empty}
use agent_os_backend.Table.{find, any, update}
use agent_os_backend.Errors.{ok}
use agent_os_backend.Governance.SingleUse.{Consumed, consume-Consumed, consume-once}

abbrev receipt : ApprovalReceipt
receipt = record {
  id = 50;
  created_at = 1;
  policy_decision_id = 100;
  actor_user_id = 1;
  subject_type = "kb_operation";
  subject_id = "kb-1";
  capability_key = "payments";
  decision = "require_user_approval";
  token_hash = "secret";
  status = "pending";
  expires_at = 900;
  consumed_at = none;
  consumed_by = "";
  metadata = empty;
}

abbrev receipts_db : Db Tables
receipts_db = served (record no_rows { receipts = receipt ∷ [] })

abbrev use_it : ConsumeApprovalReceiptInput
use_it = record {
  token = "secret";
  consumed_by = " phone ";
  actor_user_id = some 1;
  subject_type = "";
  subject_id = "kb-1";
  capability_key = "payments";
}

abbrev used : ApprovalReceipt
used = record receipt { status = "consumed"; consumed_at = some 5; consumed_by = "phone" }

single-IsKeyed : (r : ApprovalReceipt) → IsKeyed (r ∷ [])
single-IsKeyed r = record {
  by_id = λ a b ha hb _. one a b ha hb;
  by_hash = λ a b ha hb _. one a b ha hb;
}
  where
    one : (a b : ApprovalReceipt) → In a (r ∷ []) → In b (r ∷ []) → a ≡ b
    one a b (inl e) (inl k) = e ∙ sym k
    one a b (inl e) (inr k) = elim k [ ]
    one a b (inr k) hb = elim k [ ]

consume-Consumed_example :
    Consumed plain 5 use_it receipts_db.tables
      (consume_approval_receipt_for_operation plain 5 use_it receipts_db).1.tables
      used
unfolding consume_approval_receipt_for_operation consume_approval_receipt_by_token_hash transaction
    select statement save_receipt consume_receipt meets find any update trim_space
    or_invalid_receipt
consume-Consumed_example = consume-Consumed plain 5 use_it receipts_db used refl

-- Between the two consumptions the receipt's revocation is tried.
abbrev tries : List Call
tries = revokes 6 50 "too late" ∷ []

consume-once_example :
    (consume_approval_receipt_for_operation plain 7 use_it
      (calls plain tries (call plain (consumes 5 use_it) receipts_db))).0
    ≢ ok used
unfolding consume_approval_receipt_for_operation consume_approval_receipt_by_token_hash transaction
    select statement save_receipt consume_receipt meets find any update trim_space
    or_invalid_receipt
consume-once_example =
    consume-once plain 5 7 use_it use_it tries receipts_db used used (single-IsKeyed receipt) refl
      refl

abbrev used_db : Db Tables
used_db = served (record no_rows { receipts = used ∷ [] })

calls-final_example : In used (calls plain tries used_db).tables.receipts
calls-final_example =
    calls-final plain tries used_db used (single-IsKeyed used) (inl refl)
      (λ e. ground (arith, eq_iff "consumed" "pending"))
