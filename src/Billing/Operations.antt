-- ===== src/Billing/Operations.antt =====
-- The calls of internal/service/kb_billing.go that write, in any order and number, each with what it
-- takes from outside. The lists and the details only read.
use agent_os_backend.Prelude.{ℕ, String, List, [], ◌∷◌}
use agent_os_backend.Db.{Db}
use agent_os_backend.Billing.Rows.{Tables, Stamp}
use agent_os_backend.Billing.Usage.{Externals, Stamps, RecordKbUsageInput, record_usage}
use agent_os_backend.Billing.Plans.{UpsertKbBillingPlanInput, upsert_billing_plan}
use agent_os_backend.Billing.Invoices.{
  CreateKbInvoiceInput, create_invoice_detail, mark_invoice_paid,
}
use agent_os_backend.Billing.Service.{
  RequestKbRefundInput, OpenKbBillingDisputeInput, request_refund, resolve_refund, open_dispute,
  resolve_dispute, mark_payout_paid, get_account,
}

pub data Operation : Type 0 where
  use_base : Stamps → ℕ → RecordKbUsageInput → Operation
  set_plan : Stamp → ℕ → UpsertKbBillingPlanInput → Operation
  invoice : Stamp → (ℕ → Stamp) → ℕ → CreateKbInvoiceInput → Operation
  pay_invoice : ℕ → ℕ → Operation
  ask_refund : Stamp → ℕ → RequestKbRefundInput → Operation
  settle_refund : ℕ → ℕ → ℕ → String → Operation
  dispute : Stamp → ℕ → OpenKbBillingDisputeInput → Operation
  settle_dispute : ℕ → ℕ → ℕ → String → String → Operation
  pay_out : ℕ → ℕ → Operation
  look_at_account : Stamp → ℕ → Operation

module _ (x : Externals) where
  -- the rows after one call, whether it returned a value or an error
  unfoldable pub perform : Operation → Db Tables → Db Tables
  perform (use_base s now input) d = (record_usage x s now input d).1
  perform (set_plan s now input) d = (upsert_billing_plan s now input d).1
  perform (invoice s stamps now input) d = (create_invoice_detail s stamps now input d).1
  perform (pay_invoice now id) d = (mark_invoice_paid now id d).1
  perform (ask_refund s user_id input) d = (request_refund s user_id input d).1
  perform (settle_refund now admin_id id status) d = (resolve_refund now admin_id id status d).1
  perform (dispute s user_id input) d = (open_dispute s user_id input d).1
  perform (settle_dispute now admin_id id status text) d =
      (resolve_dispute now admin_id id status text d).1
  perform (pay_out now id) d = (mark_payout_paid now id d).1
  perform (look_at_account s user_id) d = (get_account s user_id d).1

  unfoldable pub perform_all : List Operation → Db Tables → Db Tables
  unfolding perform
  perform_all [] d = d
  perform_all (o ∷ os) d = perform_all os (perform o d)

  -- What each call keeps, all of them keep.
  pub perform_all-Keeps :
      (P : Tables → Type 0)
      → ((o : Operation) (d : Db Tables) → P d.tables → P (perform o d).tables)
      → (os : List Operation) (d : Db Tables) → P d.tables
      → P (perform_all os d).tables
  unfolding perform_all
  perform_all-Keeps P step [] d h = h
  perform_all-Keeps P step (o ∷ os) d h = perform_all-Keeps P step os (perform o d) (step o d h)
