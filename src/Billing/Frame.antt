-- ===== src/Billing/Frame.antt =====
-- What keeps an invariant of the billing tables: each group of writes does. An invariant that does not
-- read a table is kept by every write to it.
use agent_os_backend.Prelude.{ℕ, String, List, [], ◌∷◌, nat_eq, string_eq}
use agent_os_backend.Errors.{record_not_found, Result, ok, err}
use agent_os_backend.Db.Keeps.{insert-Keeps, write-Keeps, Keeps, keeps_rules, transaction-Keeps}
use agent_os_backend.Db.{Db}
use agent_os_backend.Billing.Operations.{
  use_base, set_plan, invoice, pay_invoice, ask_refund, settle_refund, dispute, settle_dispute,
  pay_out, look_at_account, Operation, perform, perform_all, perform_all-Keeps,
}
use agent_os_backend.Billing.Rows.{Tables, Stamp, KbInvoice, KbInvoiceItem, BillingAccount}
use agent_os_backend.Billing.Repo
use agent_os_backend.Billing.Payouts.{Fresh, add_contributor_earning, mark_payout_period_paid}
use agent_os_backend.Billing.Claims.{
  resolve_refund_row, resolve_dispute_row, create_dispute, set_dispute_status,
}
use agent_os_backend.Billing.Usage.{
  Externals, Stamps, RecordKbUsageInput, record_usage, amount_of, share_of, after_account,
  after_record, after_transaction, pay_owner,
}
use agent_os_backend.Billing.Plans.{
  replace_plan, upsert_billing_plan, UpsertKbBillingPlanInput, Terms,
}
use agent_os_backend.Billing.Invoices.{create_invoice_detail, mark_invoice_paid, issue_invoice}
use agent_os_backend.Billing.Service.{
  RequestKbRefundInput, request_refund, resolve_refund, open_dispute, resolve_dispute,
  mark_payout_paid, get_account,
}

module _ (P : Tables → Type 0) where
  -- an invariant that does not read the tables that no invariant needs
  pub record Ignores : Type 0 where
    pub usage : (t : Tables) → P t → (rows : List _) → P (record t { usage = rows })
    pub items : (t : Tables) → P t → (rows : List _) → P (record t { items = rows })
    pub disputes : (t : Tables) → P t → (rows : List _) → P (record t { disputes = rows })
    pub accounts : (t : Tables) → P t → (rows : List _) → P (record t { accounts = rows })
    pub transactions : (t : Tables) → P t → (rows : List _) → P (record t { transactions = rows })

  -- the writes to the others
  pub record Kept : Type 0 where
    pub ignores : Ignores
    pub plan :
        (s : Stamp) (now : ℕ) (input : UpsertKbBillingPlanInput) (terms : Terms)
        → Keeps P (replace_plan s now input terms)
    pub invoice : (i : KbInvoice) → Keeps P (Repo.create_invoice i)
    pub paid : (id : ℕ) (status : String) (at : ℕ) → Keeps P (Repo.set_invoice_status id status at)
    pub refund : (s : Stamp) (u : ℕ) (i : RequestKbRefundInput) → Keeps P (request_refund s u i)
    pub refund_settled :
        (id admin : ℕ) (status : String) (at : ℕ) → Keeps P (resolve_refund_row id admin status at)
    pub earning :
        (f : Fresh) (owner collection : ℕ) (period : String) (input : RecordKbUsageInput)
        → Keeps P (add_contributor_earning f owner collection period (share_of (amount_of input)))
    pub paid_out : (id at : ℕ) → Keeps P (mark_payout_period_paid id at)

  module _ (k : Ignores) where
    or_create_account-Keeps :
        (s : Stamp) (u : ℕ) (c : String) (r : Result BillingAccount)
        → Keeps P (Repo.or_create_account s u c r)
    unfolding Repo.or_create_account Repo.create_account
    or_create_account-Keeps s u c (ok a) = search keeps_rules
    or_create_account-Keeps s u c (err record_not_found) =
        insert-Keeps _ _ _ _ λ t _ h. k.accounts t h _
    or_create_account-Keeps s u c (err _) = search keeps_rules

    account-Keeps : (s : Stamp) (u : ℕ) (c : String) → Keeps P (Repo.get_or_create_account s u c)
    unfolding Repo.get_or_create_account
    account-Keeps s u c = search (keeps_rules, or_create_account-Keeps)

    charge-Keeps : (x : _) → Keeps P (Repo.create_transaction x)
    unfolding Repo.create_transaction
    charge-Keeps x = insert-Keeps _ _ _ _ λ t _ h. k.transactions t h _

    usage-Keeps : (u : _) → Keeps P (Repo.create_usage_record u)
    unfolding Repo.create_usage_record
    usage-Keeps u = insert-Keeps _ _ _ _ λ t _ h. k.usage t h _

module _ (P : Tables → Type 0) (k : Kept P) where
  module _ (x : Externals) (s : Stamps) (now : ℕ) (input : RecordKbUsageInput) where
    pay_owner-Keeps : Keeps P (pay_owner x s now input)
    unfolding pay_owner
    pay_owner-Keeps = search (keeps_rules, k.earning)

    after_transaction-Keeps : (r : _) → Keeps P (after_transaction x s now input r)
    unfolding after_transaction
    after_transaction-Keeps (err e) = search keeps_rules
    after_transaction-Keeps (ok u) = search (keeps_rules, pay_owner-Keeps)

    after_account-Keeps : (r : _) → Keeps P (after_account x s now input r)
    unfolding after_account
    after_account-Keeps (err e) = search keeps_rules
    after_account-Keeps (ok a) =
        search (keeps_rules, charge-Keeps P k.ignores, after_transaction-Keeps)

    after_record-Keeps : (r : _) → Keeps P (after_record x s now input r)
    unfolding after_record
    after_record-Keeps (err e) = search keeps_rules
    after_record-Keeps (ok u) = search (keeps_rules, account-Keeps P k.ignores, after_account-Keeps)

    record_usage-Keeps : Keeps P (record_usage x s now input)
    unfolding record_usage
    record_usage-Keeps = search (keeps_rules, usage-Keeps P k.ignores, after_record-Keeps) depth 10

  create_items-Keeps : (is : List KbInvoiceItem) → Keeps P (Repo.create_items is)
  unfolding Repo.create_items
  create_items-Keeps [] = search keeps_rules
  create_items-Keeps (i ∷ is) = insert-Keeps _ _ _ _ λ t _ g. k.ignores.items t g _

  invoice-Keeps :
      (s : Stamp) (stamps : ℕ → Stamp) (now : ℕ) (i : _)
      → Keeps P (create_invoice_detail s stamps now i)
  unfolding create_invoice_detail issue_invoice Repo.create_invoice_with_items
  invoice-Keeps s stamps now i =
      search (keeps_rules, transaction-Keeps, k.invoice, create_items-Keeps) depth 10

  dispute-Keeps : (x : _) → Keeps P (create_dispute x)
  unfolding create_dispute
  dispute-Keeps x = insert-Keeps _ _ _ _ λ t _ g. k.ignores.disputes t g _

  set_dispute_status-Keeps :
      (id admin : ℕ) (status text : String) (now : ℕ)
      → Keeps P (set_dispute_status id admin status text now)
  unfolding set_dispute_status
  set_dispute_status-Keeps id admin status text now =
      write-Keeps _ _ λ t g. k.ignores.disputes t g _

  pub perform-Keeps :
      (x : Externals) (o : Operation) (d : Db Tables) → P d.tables → P (perform x o d).tables
  unfolding perform mark_payout_paid get_account upsert_billing_plan mark_invoice_paid
      Repo.update_invoice_status Repo.get_invoice resolve_refund open_dispute resolve_dispute
      resolve_dispute_row
  perform-Keeps x (use_base s now input) = (record_usage-Keeps x s now input).after
  perform-Keeps x (set_plan s now input) =
      let k : Keeps P (upsert_billing_plan s now input) = search (keeps_rules, k.plan) in k.after
  perform-Keeps x (invoice s stamps now input) = (invoice-Keeps s stamps now input).after
  perform-Keeps x (pay_invoice now id) =
      let k : Keeps P (mark_invoice_paid now id) = search (keeps_rules, k.paid) in k.after
  perform-Keeps x (ask_refund s u input) = (k.refund s u input).after
  perform-Keeps x (settle_refund now a id status) =
      let k : Keeps P (resolve_refund now a id status) = search (keeps_rules, k.refund_settled) in
      k.after
  perform-Keeps x (dispute s u input) =
      let k : Keeps P (open_dispute s u input) = search (keeps_rules, dispute-Keeps) depth 10 in
      k.after
  perform-Keeps x (settle_dispute now a id status text) =
      let k : Keeps P (resolve_dispute now a id status text) =
        search (keeps_rules, set_dispute_status-Keeps) in
      k.after
  perform-Keeps x (pay_out now id) = (k.paid_out id now).after
  perform-Keeps x (look_at_account s u) = (account-Keeps P k.ignores s u "CNY").after

  -- An invariant that every write keeps is kept by any calls.
  pub all-Keeps :
      (x : Externals) (os : List Operation) (d : Db Tables)
      → P d.tables
      → P (perform_all x os d).tables
  all-Keeps x = perform_all-Keeps x P (perform-Keeps x)
