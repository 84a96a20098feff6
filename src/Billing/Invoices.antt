-- ===== src/Billing/Invoices.antt =====
-- Invoices of internal/service/kb_billing.go. `now` is time.Now() of a call.
use agent_os_backend.Prelude.{
  ℕ, suc, String, ◌&&◌, Option, none, some, List, [], ◌∷◌, ◌==◌, ◌!=◌, nat_eq, string_eq,
  if◌then◌else◌, trim_space,
}
use agent_os_backend.Prelude.Int64.{Int64, ◌+ᵢ◌, ◌*ᵢ◌, is_negative, is_positive, tenth}
use agent_os_backend.Errors.{Result, ok, err, kb_invalid, wrapped}
use agent_os_backend.Db.{Exec, ◌>>=◌, ◌>>◌, pure, raise, lift, fail_if}
use agent_os_backend.Json.{JsonMap}
use agent_os_backend.Billing.Rows.{KbInvoice, KbInvoiceItem, Tables, Stamp}
use agent_os_backend.Billing.Usage.{or_cny}
use agent_os_backend.Billing.Repo.{
  create_invoice_with_items, get_invoice, list_invoice_items, update_invoice_status,
}

-- Invoices.
pub record CreateKbInvoiceItemInput : Type 0 where
  pub usage_record_id : Option ℕ
  pub description : String
  pub quantity : Int64
  pub unit_price : Int64
  pub amount : Int64
  pub metadata : Option JsonMap

pub record CreateKbInvoiceInput : Type 0 where
  pub user_id : ℕ
  pub collection_id : Option ℕ
  pub subscription_id : Option ℕ
  pub currency : String
  pub period_start : Option ℕ
  pub period_end : Option ℕ
  pub items : List CreateKbInvoiceItemInput
  pub metadata : Option JsonMap

pub record KbInvoiceDetail : Type 0 where
  pub invoice : KbInvoice
  pub items : List KbInvoiceItem

unfoldable pub quantity_of : CreateKbInvoiceItemInput → Int64
quantity_of item = if is_positive item.quantity then item.quantity else 1

unfoldable pub item_amount : CreateKbInvoiceItemInput → Int64
unfolding quantity_of
item_amount item =
    if item.amount == 0 && is_positive item.unit_price
    then quantity_of item *ᵢ item.unit_price
    else item.amount

unfoldable pub new_item : Stamp → CreateKbInvoiceItemInput → KbInvoiceItem
unfolding quantity_of item_amount
new_item s item = record {
  id = s.id;
  created_at = s.at;
  invoice_id = 0;
  usage_record_id = item.usage_record_id;
  description = trim_space item.description;
  quantity = quantity_of item;
  unit_price = item.unit_price;
  amount = item_amount item;
  metadata = item.metadata;
}

abbrev pub item_first :
    KbInvoiceItem → Result (List KbInvoiceItem × Int64) → Result (List KbInvoiceItem × Int64)
item_first item (err e) = err e
item_first item (ok (items, sum)) = ok (item ∷ items, sum)

-- The loop over the items, with the subtotal so far; the stamps are the items' in order.
unfoldable pub make_items :
    (ℕ → Stamp) → ℕ → Int64 → List CreateKbInvoiceItemInput → Result (List KbInvoiceItem × Int64)
unfolding new_item item_amount
make_items stamps n subtotal [] = ok ([], subtotal)
make_items stamps n subtotal (item ∷ rest) =
    let more = make_items stamps (suc n) (subtotal +ᵢ item_amount item) rest in
    if trim_space item.description == ""
    then err (wrapped "invoice item description is required" kb_invalid)
    else if is_negative (item_amount item)
    then err (wrapped "invoice item amount must be non-negative" kb_invalid)
    else item_first (new_item (stamps n) item) more

unfoldable pub new_invoice : Stamp → ℕ → CreateKbInvoiceInput → Int64 → KbInvoice
new_invoice s now input subtotal = record {
  id = s.id;
  created_at = s.at;
  user_id = input.user_id;
  collection_id = input.collection_id;
  subscription_id = input.subscription_id;
  status = "issued";
  currency = or_cny input.currency;
  subtotal = subtotal;
  platform_fee = tenth subtotal;
  total = subtotal;
  period_start = input.period_start;
  period_end = input.period_end;
  issued_at = some now;
  paid_at = none;
  metadata = input.metadata;
}

unfoldable pub issue_invoice :
    Stamp → ℕ → CreateKbInvoiceInput → List KbInvoiceItem × Int64 → Exec Tables KbInvoiceDetail
unfolding new_invoice
issue_invoice s now input (items, subtotal) = do
  let invoice = new_invoice s now input subtotal
  stored ← create_invoice_with_items invoice items
  pure (record { invoice = invoice; items = stored })

unfoldable pub create_invoice_detail :
    Stamp → (ℕ → Stamp) → ℕ → CreateKbInvoiceInput → Exec Tables KbInvoiceDetail
unfolding make_items issue_invoice
create_invoice_detail s stamps now input =
    if input.user_id == 0
    then raise (wrapped "user_id is required" kb_invalid)
    else lift (make_items stamps 0 0 input.items) >>= issue_invoice s now input

unfoldable pub get_invoice_detail : ℕ → ℕ → Exec Tables KbInvoiceDetail
get_invoice_detail user_id invoice_id = do
  invoice ← get_invoice invoice_id
  fail_if (invoice.user_id != user_id) kb_invalid
  items ← list_invoice_items invoice_id
  pure (record { invoice = invoice; items = items })

unfoldable pub mark_invoice_paid : ℕ → ℕ → Exec Tables KbInvoice
mark_invoice_paid now invoice_id = update_invoice_status invoice_id "paid" now
