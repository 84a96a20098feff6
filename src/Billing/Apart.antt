-- ===== src/Billing/Apart.antt =====
-- Writes to a table that an invariant does not read.
use agent_os_backend.Prelude.{ℕ, String, List}
use agent_os_backend.Errors.{ok, err, record_not_found}
use agent_os_backend.Db.Keeps.{Keeps, keeps_rules, insert-Keeps, write-Keeps}
use agent_os_backend.Billing.Rows.{Tables, Stamp, KbInvoice, KbBillingPlan, KbRefund}
use agent_os_backend.Billing.Repo
use agent_os_backend.Billing.Payouts.{
  Share, Fresh, create_payout, save_payout, put_payout, upsert_payout_period, create_earning,
  save_earning, put_earning, get_earning, add_contributor_earning, set_payout_paid,
  mark_payout_period_paid,
}
use agent_os_backend.Billing.Claims.{
  create_refund, set_refund_status, get_refund, resolve_refund_row,
}
use agent_os_backend.Billing.Plans.{replace_plan, UpsertKbBillingPlanInput, Terms}
use agent_os_backend.Billing.Service.{RequestKbRefundInput, request_refund}

module _ (P : Tables → Type 0) where
  module _ (k : (t : Tables) → P t → (rows : List _) → P (record t { plans = rows })) where
    archive-Keeps : (c : ℕ) → Keeps P (Repo.archive_active_plans c)
    unfolding Repo.archive_active_plans
    archive-Keeps c = write-Keeps _ _ λ t h. k t h _

    create_plan-Keeps : (p : KbBillingPlan) → Keeps P (Repo.create_billing_plan p)
    unfolding Repo.create_billing_plan
    create_plan-Keeps p = insert-Keeps _ _ _ _ λ t _ h. k t h _

    pub replace_plan-Keeps :
        (s : Stamp) (now : ℕ) (input : UpsertKbBillingPlanInput) (terms : Terms)
        → Keeps P (replace_plan s now input terms)
    unfolding replace_plan Repo.next_plan_version
    replace_plan-Keeps s now input terms =
        search (keeps_rules, archive-Keeps, create_plan-Keeps) depth 10

  module _ (k : (t : Tables) → P t → (rows : List _) → P (record t { invoices = rows })) where
    pub create_invoice-Keeps : (i : KbInvoice) → Keeps P (Repo.create_invoice i)
    unfolding Repo.create_invoice
    create_invoice-Keeps i = insert-Keeps _ _ _ _ λ t _ h. k t h _

    pub set_invoice_status-Keeps :
        (id : ℕ) (status : String) (at : ℕ) → Keeps P (Repo.set_invoice_status id status at)
    unfolding Repo.set_invoice_status
    set_invoice_status-Keeps id status at = write-Keeps _ _ λ t h. k t h _

  module _ (k : (t : Tables) → P t → (rows : List _) → P (record t { refunds = rows })) where
    create_refund-Keeps : (r : KbRefund) → Keeps P (create_refund r)
    unfolding create_refund
    create_refund-Keeps r = insert-Keeps _ _ _ _ λ t _ h. k t h _

    pub request_refund-Keeps :
        (s : Stamp) (u : ℕ) (i : RequestKbRefundInput) → Keeps P (request_refund s u i)
    unfolding request_refund Repo.get_invoice
    request_refund-Keeps s u i = search (keeps_rules, create_refund-Keeps) depth 12

    set_refund_status-Keeps :
        (id admin : ℕ) (status : String) (at : ℕ) → Keeps P (set_refund_status id admin status at)
    unfolding set_refund_status
    set_refund_status-Keeps id admin status at = write-Keeps _ _ λ t h. k t h _

    pub resolve_refund_row-Keeps :
        (id admin : ℕ) (status : String) (at : ℕ) → Keeps P (resolve_refund_row id admin status at)
    unfolding resolve_refund_row get_refund
    resolve_refund_row-Keeps id admin status at = search (keeps_rules, set_refund_status-Keeps)

  module _ (k : (t : Tables) → P t → (rows : List _) → P (record t { payouts = rows }))
      (l : (t : Tables) → P t → (rows : List _) → P (record t { earnings = rows })) where
    create_payout-Keeps : (p : _) → Keeps P (create_payout p)
    unfolding create_payout
    create_payout-Keeps p = insert-Keeps _ _ _ _ λ t _ h. k t h _

    save_payout-Keeps : (p : _) → Keeps P (save_payout p)
    unfolding save_payout
    save_payout-Keeps p = write-Keeps _ _ λ t h. k t h _

    create_earning-Keeps : (e : _) → Keeps P (create_earning e)
    unfolding create_earning
    create_earning-Keeps e = insert-Keeps _ _ _ _ λ t _ h. l t h _

    save_earning-Keeps : (e : _) → Keeps P (save_earning e)
    unfolding save_earning
    save_earning-Keeps e = write-Keeps _ _ λ t h. l t h _

    put_payout-Keeps :
        (s : Stamp) (c : ℕ) (period : String) (share : Share) (r : _)
        → Keeps P (put_payout s c period share r)
    unfolding put_payout
    put_payout-Keeps s c period share (ok p) = search (keeps_rules, save_payout-Keeps)
    put_payout-Keeps s c period share (err record_not_found) =
        search (keeps_rules, create_payout-Keeps)
    put_payout-Keeps s c period share (err _) = search keeps_rules

    upsert_payout-Keeps :
        (s : Stamp) (c : ℕ) (period : String) (share : Share)
        → Keeps P (upsert_payout_period s c period share)
    unfolding upsert_payout_period
    upsert_payout-Keeps s c period share = search (keeps_rules, put_payout-Keeps)

    put_earning-Keeps :
        (f : Fresh) (c col : ℕ) (period : String) (share : Share) (r : _)
        → Keeps P (put_earning f c col period share r)
    unfolding put_earning
    put_earning-Keeps f c col period share (ok e) =
        search (keeps_rules, upsert_payout-Keeps, save_earning-Keeps)
    put_earning-Keeps f c col period share (err record_not_found) =
        search (keeps_rules, upsert_payout-Keeps, create_earning-Keeps)
    put_earning-Keeps f c col period share (err _) = search keeps_rules

    pub add_earning-Keeps :
        (f : Fresh) (c col : ℕ) (period : String) (share : Share)
        → Keeps P (add_contributor_earning f c col period share)
    unfolding add_contributor_earning get_earning
    add_earning-Keeps f c col period share = search (keeps_rules, put_earning-Keeps)

    set_payout_paid-Keeps : (id at : ℕ) → Keeps P (set_payout_paid id at)
    unfolding set_payout_paid
    set_payout_paid-Keeps id at = write-Keeps _ _ λ t h. k t h _

    pub pay_out-Keeps : (id at : ℕ) → Keeps P (mark_payout_period_paid id at)
    unfolding mark_payout_period_paid
    pay_out-Keeps id at = search (keeps_rules, set_payout_paid-Keeps)
