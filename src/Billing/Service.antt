-- ===== src/Billing/Service.antt =====
-- Refunds, disputes, payouts and accounts of internal/service/kb_billing.go. `now` is time.Now() of a
-- call.
use agent_os_backend.Prelude.{
  ℕ, String, ◌&&◌, ◌||◌, none, ◌==◌, ◌!=◌, nat_eq, string_eq, if◌then◌else◌, trim_space, not,
}
use agent_os_backend.Prelude.Int64.{Int64, is_positive, less_than}
use agent_os_backend.Errors.{kb_invalid, wrapped}
use agent_os_backend.Db.{Exec, ◌>>=◌, ◌>>◌, pure, raise, fail_if}
use agent_os_backend.Billing.Rows.{
  ContributorPayoutPeriod, KbRefund, KbBillingDispute, BillingAccount, Tables, Stamp,
}
use agent_os_backend.Billing.Repo.{get_invoice, get_or_create_account}
use agent_os_backend.Billing.Payouts.{mark_payout_period_paid}
use agent_os_backend.Billing.Claims.{
  create_refund, resolve_refund_row, create_dispute, resolve_dispute_row,
}

-- Refunds and disputes.
pub record RequestKbRefundInput : Type 0 where
  pub invoice_id : ℕ
  pub amount : Int64
  pub reason : String

unfoldable pub new_refund : Stamp → ℕ → RequestKbRefundInput → KbRefund
new_refund s user_id input = record {
  id = s.id;
  created_at = s.at;
  invoice_id = input.invoice_id;
  user_id = user_id;
  amount = input.amount;
  reason = trim_space input.reason;
  status = "pending";
  processed_by = none;
  processed_at = none;
}

unfoldable pub request_refund : Stamp → ℕ → RequestKbRefundInput → Exec Tables KbRefund
unfolding new_refund
request_refund s user_id input = do
  invoice ← get_invoice input.invoice_id
  fail_if (invoice.user_id != user_id) kb_invalid
  fail_if (not (is_positive input.amount) || less_than invoice.total input.amount)
      (wrapped "invalid refund amount" kb_invalid)
  fail_if (trim_space input.reason == "") (wrapped "refund reason is required" kb_invalid)
  create_refund (new_refund s user_id input)
  pure (new_refund s user_id input)

unfoldable pub resolve_refund : ℕ → ℕ → ℕ → String → Exec Tables KbRefund
resolve_refund now admin_id refund_id status =
    let s = trim_space status in
    if s != "approved" && s != "rejected" && s != "processed"
    then raise (wrapped "invalid refund status" kb_invalid)
    else resolve_refund_row refund_id admin_id s now

pub record OpenKbBillingDisputeInput : Type 0 where
  pub invoice_id : ℕ
  pub reason : String
  pub detail : String

unfoldable pub new_dispute : Stamp → ℕ → OpenKbBillingDisputeInput → KbBillingDispute
new_dispute s user_id input = record {
  id = s.id;
  created_at = s.at;
  invoice_id = input.invoice_id;
  user_id = user_id;
  reason = trim_space input.reason;
  detail = trim_space input.detail;
  status = "open";
  resolved_by = none;
  resolved_at = none;
  resolution = "";
}

unfoldable pub open_dispute : Stamp → ℕ → OpenKbBillingDisputeInput → Exec Tables KbBillingDispute
unfolding new_dispute
open_dispute s user_id input = do
  invoice ← get_invoice input.invoice_id
  fail_if (invoice.user_id != user_id) kb_invalid
  fail_if (trim_space input.reason == "") (wrapped "dispute reason is required" kb_invalid)
  create_dispute (new_dispute s user_id input)
  pure (new_dispute s user_id input)

unfoldable pub resolve_dispute : ℕ → ℕ → ℕ → String → String → Exec Tables KbBillingDispute
resolve_dispute now admin_id dispute_id status resolution =
    let s = trim_space status in
    if s != "accepted" && s != "rejected" && s != "cancelled"
    then raise (wrapped "invalid dispute status" kb_invalid)
    else resolve_dispute_row dispute_id admin_id s (trim_space resolution) now

unfoldable pub mark_payout_paid : ℕ → ℕ → Exec Tables ContributorPayoutPeriod
mark_payout_paid now payout_id = mark_payout_period_paid payout_id now

unfoldable pub get_account : Stamp → ℕ → Exec Tables BillingAccount
get_account s user_id = get_or_create_account s user_id "CNY"
