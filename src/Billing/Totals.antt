-- ===== src/Billing/Totals.antt =====
-- What CreateInvoice writes: the invoice with all its items, or nothing.
use agent_os_backend.Prelude.{
  ℕ, suc, Bool, true, false, ◌≡◌, refl, sym, ap, ◌∙◌, subst, List, [], ◌∷◌, ◌++◌, All, ◌==◌, nat_eq,
  string_eq, trim_space, inl, inr, Bool-cases, if◌then◌else◌,
}
use agent_os_backend.Prelude.Int64.{Int64, ◌+ᵢ◌, is_negative, tenth}
use agent_os_backend.Errors.{Error, Result, ok, err, duplicate_key}
use agent_os_backend.Db.{Db, Exec, ◌>>=◌, pure, next, continue}
use agent_os_backend.Db.Laws.{>>=-ok, statement-ok, transaction-ok, transaction-err}
use agent_os_backend.Table.{any}
use agent_os_backend.Billing.Rows.{Tables, Stamp, KbInvoice, KbInvoiceItem}
use agent_os_backend.Billing.Repo.{
  create_invoice, with_invoice, create_items, create_invoice_with_items, clashes,
}
use agent_os_backend.Billing.Invoices.{
  CreateKbInvoiceInput, CreateKbInvoiceItemInput, KbInvoiceDetail, item_amount, new_item,
  make_items, new_invoice, issue_invoice, create_invoice_detail, item_first,
}

-- the amounts of items, added from the first
abbrev pub sum_from : Int64 → List KbInvoiceItem → Int64
sum_from s [] = s
sum_from s (i ∷ is) = sum_from (s +ᵢ i.amount) is

-- what an invoice's items are to it
abbrev pub Belongs : KbInvoice → KbInvoiceItem → Type 0
Belongs invoice i = (i.invoice_id ≡ invoice.id) × (is_negative i.amount ≡ false)

pub record IsIssued (before after : Tables) (detail : KbInvoiceDetail) : Type 0 where
  pub total : detail.invoice.total ≡ sum_from 0 detail.items
  pub fee : detail.invoice.platform_fee ≡ tenth detail.invoice.total
  pub items : All (Belongs detail.invoice) detail.items
  pub stored : after.invoices ≡ before.invoices ++ detail.invoice ∷ []
  pub stored_items : after.items ≡ before.items ++ detail.items

abbrev NotNegative : KbInvoiceItem → Type 0
NotNegative i = is_negative i.amount ≡ false

append-nil : {A : Type 0} (xs : List A) → xs ++ [] ≡ xs
append-nil [] = refl
append-nil (x ∷ xs) = ap (λ ys. x ∷ ys) (append-nil xs)

item_first-ok :
    (i : KbInvoiceItem) (r : Result (List KbInvoiceItem × Int64))
    (made : List KbInvoiceItem × Int64)
    → item_first i r ≡ ok made
    → (more : List KbInvoiceItem × Int64) × (r ≡ ok more) × ((i ∷ more.0, more.1) ≡ made)
item_first-ok i (ok more) made h = (more, refl, cc)
item_first-ok i (err e) made h = cc

refuse-ok :
    {A : Type 0} (b : Bool) (e : Error) (r : Result A) (a : A)
    → (if b then err e else r) ≡ ok a
    → (b ≡ false) × (r ≡ ok a)
refuse-ok true e r a h = cc
refuse-ok false e r a h = (refl, h)

abbrev Made : Int64 → List KbInvoiceItem × Int64 → Type 0
Made s made = (made.1 ≡ sum_from s made.0) × All NotNegative made.0

make_items-ok :
    (stamps : ℕ → Stamp) (n : ℕ) (s : Int64) (input : List CreateKbInvoiceItemInput)
    (made : List KbInvoiceItem × Int64)
    → make_items stamps n s input ≡ ok made
    → Made s made
unfolding make_items new_item
make_items-ok stamps n s [] made h = let k : ([], s) ≡ made = cc in subst (Made s) k (refl, tt)
make_items-ok stamps n s (item ∷ rest) made h =
    let more = make_items stamps (suc n) (s +ᵢ item_amount item) rest in
    let (_, h') = refuse-ok (trim_space item.description == "") _ _ made h in
    let (amount, h2) = refuse-ok (is_negative (item_amount item)) _ _ made h' in
    let (found, e, k) = item_first-ok (new_item (stamps n) item) more made h2 in
    let (total, signs) = make_items-ok stamps (suc n) (s +ᵢ item_amount item) rest found e in
    subst (Made s) k (total, (amount, signs))

with_invoice-Belongs :
    (invoice : KbInvoice) (is : List KbInvoiceItem)
    → All NotNegative is
    → All (Belongs invoice) (with_invoice invoice.id is)
unfolding with_invoice
with_invoice-Belongs invoice [] h = tt
with_invoice-Belongs invoice (i ∷ is) h = ((refl, h.0), with_invoice-Belongs invoice is h.1)

with_invoice-sum :
    (id : ℕ) (s : Int64) (is : List KbInvoiceItem) → sum_from s (with_invoice id is) ≡ sum_from s is
unfolding with_invoice
with_invoice-sum id s [] = refl
with_invoice-sum id s (i ∷ is) = with_invoice-sum id (s +ᵢ i.amount) is

create_invoice-ok :
    (i : KbInvoice) (d : Db Tables) (u : Unit {0})
    → (create_invoice i d).0 ≡ ok u
    → (create_invoice i d).1.tables ≡ record d.tables { invoices = d.tables.invoices ++ i ∷ [] }
unfolding create_invoice
create_invoice-ok i d u h =
    let (_, k) =
      refuse-ok (any (λ r. r.id == i.id) d.tables.invoices) _ _ _ (statement-ok _ d u h) in
    cc

create_items-ok :
    (is : List KbInvoiceItem) (d : Db Tables) (u : Unit {0})
    → (create_items is d).0 ≡ ok u
    → (create_items is d).1.tables ≡ record d.tables { items = d.tables.items ++ is }
unfolding create_items
create_items-ok [] d u h = rw (append-nil d.tables.items)
create_items-ok (i ∷ is) d u h =
    let (_, k) =
      refuse-ok (clashes d.tables.items (i ∷ is)) duplicate_key
        (ok (tt, record d.tables { items = d.tables.items ++ i ∷ is })) _ (statement-ok _ d u h) in
    cc

abbrev with_items : List KbInvoiceItem → Tables → Tables
with_items is t = record t { items = t.items ++ is }

module _ (i : KbInvoice) (is : List KbInvoiceItem) where
  abbrev both : Tables → Tables
  both t = record t { invoices = t.invoices ++ i ∷ []; items = t.items ++ with_invoice i.id is }

  create_invoice_with_items-ok :
      (d : Db Tables) (stored : List KbInvoiceItem)
      → (create_invoice_with_items i is d).0 ≡ ok stored
      → (stored ≡ with_invoice i.id is)
        × ((create_invoice_with_items i is d).1.tables ≡ both d.tables)
  unfolding create_invoice_with_items
  create_invoice_with_items-ok d stored h =
      let owned = with_invoice i.id is in
      let rest : Exec Tables (List KbInvoiceItem) = create_items owned >>= λ _. pure owned in
      let (h', same) = transaction-ok (create_invoice i >>= λ _. rest) d stored h in
      let (u, e, k) = >>=-ok (create_invoice i) (λ _. rest) (next d) stored h' in
      let (v, e', k') =
        >>=-ok (create_items owned) (λ _. pure owned) (create_invoice i (next d)).1 stored
          (subst (λ r. r.0 ≡ ok stored) k h') in
      let one = create_invoice-ok i (next d) u e in
      let two = create_items-ok owned (create_invoice i (next d)).1 v e' in
      let result : ◌≡◌ {A = Result (List KbInvoiceItem)} (ok owned) (ok stored) =
        ap (λ r. r.0) (sym k') ∙ ap (λ r. r.0) (sym k) ∙ h' in
      (
        cc,
        same ∙ ap (λ r. r.1.tables) k ∙ ap (λ r. r.1.tables) k' ∙ two ∙ ap (with_items owned) one,
      )

new_invoice-IsIssued :
    (s : Stamp) (now : ℕ) (input : CreateKbInvoiceInput) (made : List KbInvoiceItem × Int64)
    (t after : Tables)
    → Made 0 made
    → let invoice = new_invoice s now input made.1 in
      after ≡ both invoice made.0 t
      → IsIssued t after (record { invoice = invoice; items = with_invoice invoice.id made.0 })
unfolding new_invoice
new_invoice-IsIssued s now input made t after (sum, signs) h = record {
  total = sum ∙ sym (with_invoice-sum s.id 0 made.0);
  fee = refl;
  items = with_invoice-Belongs (new_invoice s now input made.1) made.0 signs;
  stored = ap (λ a. a.invoices) h;
  stored_items = ap (λ a. a.items) h;
}

create_invoice_with_items-err :
    (i : KbInvoice) (is : List KbInvoiceItem) (d : Db Tables) (e : Error)
    → (create_invoice_with_items i is d).0 ≡ err e
    → (create_invoice_with_items i is d).1.tables ≡ d.tables
unfolding create_invoice_with_items
create_invoice_with_items-err i is d e h =
    transaction-err
      (create_invoice i >>= λ _.
        create_items (with_invoice i.id is) >>= λ _. pure (with_invoice i.id is))
      d e h

-- what a call of CreateInvoice came to
abbrev pub Outcome : Tables → Tables → Result KbInvoiceDetail → Type 0
Outcome before after (ok detail) = IsIssued before after detail
Outcome before after (err e) = after ≡ before

module _ (s : Stamp) (stamps : ℕ → Stamp) (now : ℕ) (input : CreateKbInvoiceInput) where
  issue_invoice-Outcome :
      (made : List KbInvoiceItem × Int64) (d : Db Tables)
      → Made 0 made
      → let (r, d') = issue_invoice s now input made d in Outcome d.tables d'.tables r
  unfolding issue_invoice
  issue_invoice-Outcome made d h =
      go (create_invoice_with_items (new_invoice s now input made.1) made.0 d).0 refl
    where
      go :
          (r : Result (List KbInvoiceItem))
          → (create_invoice_with_items (new_invoice s now input made.1) made.0 d).0 ≡ r
          → let d' = (create_invoice_with_items (new_invoice s now input made.1) made.0 d).1 in
            let finish : List KbInvoiceItem → Exec Tables KbInvoiceDetail = λ stored.
              pure (record { invoice = new_invoice s now input made.1; items = stored }) in
            Outcome d.tables (continue finish r d').1.tables (continue finish r d').0
      go (ok stored) e =
          let invoice = new_invoice s now input made.1 in
          let d' = (create_invoice_with_items invoice made.0 d).1 in
          let (k, left) = create_invoice_with_items-ok invoice made.0 d stored e in
          subst (λ is. IsIssued d.tables d'.tables (record { invoice = invoice; items = is }))
            (sym k) (new_invoice-IsIssued s now input made d.tables d'.tables h left)
      go (err x) e = create_invoice_with_items-err (new_invoice s now input made.1) made.0 d x e

-- CreateInvoice writes all or nothing. Where it returns an invoice, its total is the sum of the items'
-- amounts (in int64, which wraps), its platform fee a tenth of that, the items carry its id and no
-- negative amount, and exactly the invoice and these items are added to their tables. Where it
-- returns an error no table has changed.
pub create_invoice_detail-Outcome :
    (s : Stamp) (stamps : ℕ → Stamp) (now : ℕ) (input : CreateKbInvoiceInput) (d : Db Tables)
    → let (r, d') = create_invoice_detail s stamps now input d in Outcome d.tables d'.tables r
unfolding create_invoice_detail
create_invoice_detail-Outcome s stamps now input d = elim (Bool-cases (input.user_id == 0)) [
  | inl e ↦ rw e refl
  | inr e ↦ rw e (go (make_items stamps 0 0 input.items) refl)
]
  where
    go :
        (r : Result (List KbInvoiceItem × Int64))
        → make_items stamps 0 0 input.items ≡ r
        → let (r', d') = continue (issue_invoice s now input) r d in Outcome d.tables d'.tables r'
    go (ok made) e =
        issue_invoice-Outcome s stamps now input made d
          (make_items-ok stamps 0 0 input.items made e)
    go (err x) e = refl
