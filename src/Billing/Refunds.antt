-- ===== src/Billing/Refunds.antt =====
-- That a refund is asked for an invoice of the user and for no more than its total, and that a second
-- refund of the same invoice is not refused.
use agent_os_backend.Prelude.{
  ℕ, String, Bool, true, false, not, ◌||◌, ◌≡◌, refl, List, All, In, arith, ◌==◌, ◌!=◌, nat_eq,
  string_eq, nat_beq_iff, inl, inr, Bool-cases, All-mono, some, trim_space, ◌++◌, ◌∷◌, [],
}
use agent_os_backend.Prelude.Int64.{is_positive, less_than}
use agent_os_backend.Errors.{kb_invalid}
use agent_os_backend.Db.{Db}
use agent_os_backend.Db.Keeps.{
  Keeps, insert-Keeps, write-Keeps, guard-Keeps, looked-Keeps, bind-Keeps, pure-Keeps, select-Keeps,
}
use agent_os_backend.Table.Finding.{first-ok}
use agent_os_backend.Table.Members.{In-update_map, In-update_ne, In-append_left}
use agent_os_backend.Table.Laws.{All-insert, All-update}
use agent_os_backend.Billing.Rows.{Tables, Stamp, KbInvoice, KbRefund}
use agent_os_backend.Billing.Repo
use agent_os_backend.Billing.Claims.{
  create_refund, set_refund_status, get_refund, resolve_refund_row,
}
use agent_os_backend.Billing.Usage.{Externals, share_of, amount_of}
use agent_os_backend.Billing.Service.{RequestKbRefundInput, new_refund, request_refund}
use agent_os_backend.Billing.Operations.{Operation, perform_all}
use agent_os_backend.Billing.Frame.{Kept, all-Keeps}
use agent_os_backend.Billing.Apart.{replace_plan-Keeps, add_earning-Keeps, pay_out-Keeps}
use agent_os_backend.Table.{update}

-- the invoice that a refund is asked for
pub record Covers (is : List KbInvoice) (r : KbRefund) : Type 0 where
  pub invoice : KbInvoice
  pub stored : In invoice is
  pub same : invoice.id ≡ r.invoice_id
  pub owner : invoice.user_id ≡ r.user_id
  pub some_amount : is_positive r.amount ≡ true
  pub within : less_than invoice.total r.amount ≡ false

abbrev pub IsCovered : Tables → Type 0
IsCovered t = All (Covers t.invoices) t.refunds

create_invoice-IsCovered : (i : KbInvoice) → Keeps IsCovered (Repo.create_invoice i)
unfolding Repo.create_invoice
create_invoice-IsCovered i = insert-Keeps _ _ _ _ λ t _ h.
    All-mono (Covers t.invoices) (Covers (t.invoices ++ i ∷ [])) t.refunds
      (λ r c. record {
        invoice = c.invoice;
        stored = In-append_left t.invoices (i ∷ []) c.invoice c.stored;
        same = c.same;
        owner = c.owner;
        some_amount = c.some_amount;
        within = c.within;
      })
      h

abbrev pay : String → ℕ → KbInvoice → KbInvoice
pay status at i = record i { paid_at = some at; status = status }

pay-Covers :
    (id : ℕ) (status : String) (at : ℕ) (is : List KbInvoice) (r : KbRefund)
    → Covers is r
    → Covers (update (λ i. i.id == id) (pay status at) is) r
pay-Covers id status at is r c = elim (Bool-cases (c.invoice.id == id)) [
  | inl e ↦ record {
    invoice = pay status at c.invoice;
    stored = In-update_map (λ i. i.id == id) (pay status at) is c.invoice c.stored e;
    same = c.same;
    owner = c.owner;
    some_amount = c.some_amount;
    within = c.within;
  }
  | inr e ↦ record {
    invoice = c.invoice;
    stored = In-update_ne (λ i. i.id == id) (pay status at) is c.invoice c.stored e;
    same = c.same;
    owner = c.owner;
    some_amount = c.some_amount;
    within = c.within;
  }
]

set_invoice_status-IsCovered :
    (id : ℕ) (status : String) (at : ℕ) → Keeps IsCovered (Repo.set_invoice_status id status at)
unfolding Repo.set_invoice_status
set_invoice_status-IsCovered id status at = write-Keeps _ _ λ t h.
    All-mono (Covers t.invoices) (Covers (update (λ i. i.id == id) (pay status at) t.invoices))
      t.refunds (pay-Covers id status at t.invoices) h

-- an invoice that was asked for
record Asked (id : ℕ) (i : KbInvoice) (t : Tables) : Type 0 where
  stored : In i t.invoices
  same : i.id ≡ id

create_refund-IsCovered :
    (i : KbInvoice) (r : KbRefund)
    → i.user_id ≡ r.user_id
    → is_positive r.amount ≡ true
    → less_than i.total r.amount ≡ false
    → Keeps (λ t. IsCovered t × Asked r.invoice_id i t) (create_refund r)
unfolding create_refund
create_refund-IsCovered i r owner some_amount within = insert-Keeps _ _ _ _ λ t _ h. (
  All-insert (Covers t.invoices) t.refunds r h.0 (record {
    invoice = i;
    stored = h.1.stored;
    same = h.1.same;
    owner = owner;
    some_amount = some_amount;
    within = within;
  }),
  record { stored = h.1.stored; same = h.1.same },
)

same_user : (i : KbInvoice) (u : ℕ) → (i.user_id != u) ≡ false → i.user_id ≡ u
same_user i u h = ground (arith, nat_beq_iff i.user_id u)

amount_guard : (p l : Bool) → (not p || l) ≡ false → (p ≡ true) × (l ≡ false)
amount_guard true l h = (refl, h)
amount_guard false l h = cc

request_refund-IsCovered :
    (s : Stamp) (u : ℕ) (input : RequestKbRefundInput) → Keeps IsCovered (request_refund s u input)
unfolding request_refund Repo.get_invoice new_refund
request_refund-IsCovered s u input =
    looked-Keeps (Asked input.invoice_id) _ _
      (λ t i h e.
        let (stored, k) = first-ok (λ r. r.id == input.invoice_id) t.invoices i e in
        record { stored = stored; same = (nat_beq_iff i.id input.invoice_id).0 k })
      λ i. guard-Keeps (i.user_id != u) kb_invalid _ λ owner _.
        guard-Keeps (not (is_positive input.amount) || less_than i.total input.amount) _ _
          λ amount _. guard-Keeps (trim_space input.reason == "") _ _ λ _ _.
            bind-Keeps _ _
              (create_refund-IsCovered i (new_refund s u input) (same_user i u owner)
                (amount_guard (is_positive input.amount) (less_than i.total input.amount) amount).0
                (amount_guard (is_positive input.amount) (less_than i.total input.amount) amount).1)
              (λ _. pure-Keeps _)

settle_refund-IsCovered :
    (id admin : ℕ) (status : String) (at : ℕ)
    → Keeps IsCovered (resolve_refund_row id admin status at)
unfolding resolve_refund_row set_refund_status get_refund
settle_refund-IsCovered id admin status at =
    bind-Keeps _ _
      (write-Keeps _ _ λ t h.
        All-update (Covers t.invoices) _ _ t.refunds
          (λ r c. record {
            invoice = c.invoice;
            stored = c.stored;
            same = c.same;
            owner = c.owner;
            some_amount = c.some_amount;
            within = c.within;
          })
          h)
      (λ _. select-Keeps _)

writes-IsCovered : Kept IsCovered
writes-IsCovered = record {
  ignores = record {
    usage = λ t h _. h;
    items = λ t h _. h;
    disputes = λ t h _. h;
    accounts = λ t h _. h;
    transactions = λ t h _. h;
  };
  plan = replace_plan-Keeps IsCovered (λ t h _. h);
  invoice = create_invoice-IsCovered;
  paid = set_invoice_status-IsCovered;
  refund = request_refund-IsCovered;
  refund_settled = settle_refund-IsCovered;
  earning = λ f owner collection period input.
      add_earning-Keeps IsCovered (λ t h _. h) (λ t h _. h) f owner collection period
        (share_of (amount_of input));
  paid_out = pay_out-Keeps IsCovered (λ t h _. h) (λ t h _. h);
}

-- Whatever calls of the billing service are made, and however the database fails in them, every refund
-- is of a stored invoice of its user, and its amount is positive and at most the invoice's total, where
-- this held of the refunds before.
pub perform_all-IsCovered :
    (x : Externals) (os : List Operation) (d : Db Tables)
    → IsCovered d.tables
    → IsCovered (perform_all x os d).tables
perform_all-IsCovered = all-Keeps IsCovered writes-IsCovered
