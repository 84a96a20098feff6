-- ===== src/Billing/Repo.antt =====
-- internal/repository/billing_repo.go. Rows that an ORDER BY leaves tied keep the order of their
-- insertion here.
use agent_os_backend.Prelude.{
  ℕ, suc, String, Bool, ◌&&◌, ◌||◌, some, List, [], ◌∷◌, ◌++◌, leb, ◌==◌, nat_eq, string_eq,
  if◌then◌else◌, false,
}
use agent_os_backend.Prelude.Int.{ℤ, pos, leb_ℤ, ltb_ℤ}
use agent_os_backend.Errors.{Result, ok, err, duplicate_key, record_not_found}
use agent_os_backend.Db.{Exec, select, statement, transaction, attempt, pure, raise, ◌>>=◌, ◌>>◌}
use agent_os_backend.Table.{filter, any, update, sort_by, first}
use agent_os_backend.Governance.Listing.{slice}
use agent_os_backend.Billing.Rows.{
  KbUsageRecord, KbBillingPlan, KbInvoice, KbInvoiceItem, BillingAccount, BillingTransaction,
  Tables, Stamp,
}

-- Accounts, usage and transactions.
unfoldable pub create_account : BillingAccount → Exec Tables BillingAccount
create_account account = statement λ t.
    if any (λ a. a.id == account.id || a.user_id == account.user_id) t.accounts
    then err duplicate_key
    else ok (account, record t { accounts = t.accounts ++ account ∷ [] })

-- GetOrCreateAccount once the SELECT has returned
unfoldable pub or_create_account :
    Stamp → ℕ → String → Result BillingAccount → Exec Tables BillingAccount
unfolding create_account
or_create_account s user_id currency (ok account) = pure account
or_create_account s user_id currency (err record_not_found) =
    create_account
      (record { id = s.id; created_at = s.at; user_id = user_id; balance = 0; currency = currency })
or_create_account s user_id currency (err e) = raise e

unfoldable pub get_or_create_account : Stamp → ℕ → String → Exec Tables BillingAccount
unfolding or_create_account
get_or_create_account s user_id currency = do
  found ← attempt (select λ t. first (λ a. a.user_id == user_id) t.accounts)
  or_create_account s user_id (if currency == "" then "CNY" else currency) found

unfoldable pub create_usage_record : KbUsageRecord → Exec Tables (Unit {0})
create_usage_record u = statement λ t.
    if any (λ r. r.id == u.id) t.usage
    then err duplicate_key
    else ok (tt, record t { usage = t.usage ++ u ∷ [] })

unfoldable pub create_transaction : BillingTransaction → Exec Tables (Unit {0})
create_transaction x = statement λ t.
    if any (λ r. r.id == x.id) t.transactions
    then err duplicate_key
    else ok (tt, record t { transactions = t.transactions ++ x ∷ [] })

-- Plans: COALESCE(MAX(version), 0) over the plans of a collection.
unfoldable pub max_version : ℕ → List KbBillingPlan → ℕ
max_version collection_id [] = 0
max_version collection_id (p ∷ ps) =
    let rest = max_version collection_id ps in
    if p.collection_id == collection_id && leb rest p.version then p.version else rest

unfoldable pub next_plan_version : ℕ → Exec Tables ℕ
unfolding max_version
next_plan_version collection_id = select λ t. ok (suc (max_version collection_id t.plans))

unfoldable pub is_active : ℕ → KbBillingPlan → Bool
is_active collection_id p = p.collection_id == collection_id && p.status == "active"

unfoldable pub archive_active_plans : ℕ → Exec Tables (Unit {0})
unfolding is_active
archive_active_plans collection_id = statement λ t. ok (
  tt,
  record t {
    plans = update (is_active collection_id) (λ p. record p { status = "archived" }) t.plans;
  },
)

unfoldable pub create_billing_plan : KbBillingPlan → Exec Tables (Unit {0})
create_billing_plan plan = statement λ t.
    if any
      (λ p. p.id == plan.id || p.collection_id == plan.collection_id && p.version == plan.version)
      t.plans
    then err duplicate_key
    else ok (tt, record t { plans = t.plans ++ plan ∷ [] })

abbrev pub newer_version : KbBillingPlan → KbBillingPlan → Bool
newer_version p q = leb q.version p.version

unfoldable pub get_active_billing_plan : ℕ → Exec Tables KbBillingPlan
unfolding is_active
get_active_billing_plan collection_id =
    select λ t. first (is_active collection_id) (sort_by newer_version t.plans)

unfoldable pub list_billing_plans : ℕ → Exec Tables (List KbBillingPlan)
list_billing_plans collection_id =
    select λ t. ok (sort_by newer_version (filter (λ p. p.collection_id == collection_id) t.plans))

-- Invoices with their items.
unfoldable pub create_invoice : KbInvoice → Exec Tables (Unit {0})
create_invoice i = statement λ t.
    if any (λ r. r.id == i.id) t.invoices
    then err duplicate_key
    else ok (tt, record t { invoices = t.invoices ++ i ∷ [] })

-- the loop that sets the invoice of every item
unfoldable pub with_invoice : ℕ → List KbInvoiceItem → List KbInvoiceItem
with_invoice invoice_id [] = []
with_invoice invoice_id (i ∷ is) = record i { invoice_id = invoice_id } ∷ with_invoice invoice_id is

abbrev pub clashes : List KbInvoiceItem → List KbInvoiceItem → Bool
clashes stored [] = false
clashes stored (i ∷ is) =
    any (λ r. r.id == i.id) stored || any (λ r. r.id == i.id) is || clashes stored is

-- one INSERT of all items, which is not issued where there are none
unfoldable pub create_items : List KbInvoiceItem → Exec Tables (Unit {0})
create_items [] = pure tt
create_items (i ∷ is) = statement λ t.
    if clashes t.items (i ∷ is)
    then err duplicate_key
    else ok (tt, record t { items = t.items ++ i ∷ is })

unfoldable pub create_invoice_with_items :
    KbInvoice → List KbInvoiceItem → Exec Tables (List KbInvoiceItem)
unfolding create_invoice with_invoice create_items
create_invoice_with_items invoice items = transaction (do
  create_invoice invoice
  let owned = with_invoice invoice.id items
  create_items owned
  pure owned)

unfoldable pub get_invoice : ℕ → Exec Tables KbInvoice
get_invoice invoice_id = select λ t. first (λ i. i.id == invoice_id) t.invoices

-- ORDER BY … LIMIT … OFFSET … of the rows that meet a condition
unfoldable pub page_of : {A : Type 0} → (A → A → Bool) → ℤ → ℤ → List A → List A
unfolding slice
page_of before limit offset rows =
    slice (if leb_ℤ limit (pos 0) || ltb_ℤ (pos 100) limit then pos 50 else limit)
      (if ltb_ℤ offset (pos 0) then pos 0 else offset) (sort_by before rows)

unfoldable pub list_invoices : ℕ → ℤ → ℤ → Exec Tables (List KbInvoice)
unfolding page_of
list_invoices user_id limit offset = select λ t. ok (
    page_of (λ a b. leb b.created_at a.created_at) limit offset
      (filter (λ i. i.user_id == user_id) t.invoices))

unfoldable pub list_invoice_items : ℕ → Exec Tables (List KbInvoiceItem)
list_invoice_items invoice_id = select λ t. ok (
    sort_by (λ a b. leb a.created_at b.created_at)
      (filter (λ i. i.invoice_id == invoice_id) t.items))

-- UpdateInvoiceStatus, whose only caller sets `paid_at` as well
unfoldable pub set_invoice_status : ℕ → String → ℕ → Exec Tables (Unit {0})
set_invoice_status invoice_id status paid_at = statement λ t. ok (
  tt,
  record t {
    invoices =
        update (λ i. i.id == invoice_id) (λ i. record i { paid_at = some paid_at; status = status })
          t.invoices;
  },
)

unfoldable pub update_invoice_status : ℕ → String → ℕ → Exec Tables KbInvoice
unfolding set_invoice_status get_invoice
update_invoice_status invoice_id status paid_at = do
  set_invoice_status invoice_id status paid_at
  get_invoice invoice_id

unfoldable pub list_transactions : ℕ → ℤ → ℤ → Exec Tables (List BillingTransaction)
unfolding page_of
list_transactions user_id limit offset = select λ t. ok (
    page_of (λ a b. leb b.created_at a.created_at) limit offset
      (filter (λ x. x.user_id == user_id) t.transactions))
