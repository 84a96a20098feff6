-- ===== src/Governance/SingleUse.antt =====
-- ConsumeApprovalReceiptForOperation (internal/service/governance.go) checks the receipt and can
-- succeed once for a token.
use agent_os_backend.Prelude.{
  ℕ, String, true, ◌≡◌, ◌≢◌, ◌<◌, ap, sym, subst, ◌∙◌, some, List, arith, In, ◌==◌, string_eq,
  nat_eq, trim_space, eq_iff, nat_beq_iff, ◌∷◌, [],
}
use agent_os_backend.Errors.{Result, ok, err, invalid_governance_input}
use agent_os_backend.Db.{Db, ◌>>=◌, attempt, lift}
use agent_os_backend.Db.Laws.{raise-ok}
use agent_os_backend.Table.Members.{In-update_self}
use agent_os_backend.Governance.Rows.{Tables, ApprovalReceipt}
use agent_os_backend.Governance.Repo.{
  ApprovalReceiptConsumeConstraints, consume_approval_receipt_by_token_hash, consume_receipt, meets,
}
use agent_os_backend.Governance.Policies.{Externals}
use agent_os_backend.Governance.Service.{
  ConsumeApprovalReceiptInput, consume_approval_receipt_for_operation, or_invalid_receipt,
}
use agent_os_backend.Governance.Edits.{IsKeyed, edit, edit-ok, with_receipt}
use agent_os_backend.Governance.Receipts.{Call, call, calls, calls-IsKeyed, calls-final, consumes}

abbrev pub constraints_of : ConsumeApprovalReceiptInput → ApprovalReceiptConsumeConstraints
constraints_of input = record {
  actor_user_id = input.actor_user_id;
  subject_type = trim_space input.subject_type;
  subject_id = trim_space input.subject_id;
  capability_key = trim_space input.capability_key;
}

-- What a call that consumed the receipt `r` has checked and written.
abbrev pub Consumed :
    Externals → ℕ → ConsumeApprovalReceiptInput → Tables → Tables → ApprovalReceipt → Type 0
Consumed x now input before after r =
    (old : ApprovalReceipt) × In old before.receipts
    × (old.token_hash ≡ x.sha256_hex input.token)
    × (old.status ≡ "pending")
    × (now < old.expires_at)
    × (meets (constraints_of input) old ≡ true)
    × (r ≡ record old {
      status = "consumed";
      consumed_at = some now;
      consumed_by = trim_space input.consumed_by;
    })
    × (after ≡ with_receipt before r)

or_invalid-ok :
    (r : Result ApprovalReceipt) (a : ApprovalReceipt) → or_invalid_receipt r ≡ ok a → r ≡ ok a
unfolding or_invalid_receipt
or_invalid-ok (ok b) a h = h
or_invalid-ok (err e) a h = cc

consume_receipt-ok :
    (by : String) (now : ℕ) (c : ApprovalReceiptConsumeConstraints) (old r : ApprovalReceipt)
    → consume_receipt by now c old ≡ ok r
    → (old.status ≡ "pending")
      × (now < old.expires_at)
      × (meets c old ≡ true)
      × (r ≡ record old { status = "consumed"; consumed_at = some now; consumed_by = by })
unfolding consume_receipt
consume_receipt-ok by now c old r h = ground (arith, eq_iff old.status "pending")

-- A call that consumes a receipt has found one with the hash of the token, pending, not expired,
-- and made out for the user, subject and capability that the call names. It marks that receipt as
-- consumed, with the time and the consumer, and changes nothing else.
pub consume-Consumed :
    (x : Externals) (now : ℕ) (input : ConsumeApprovalReceiptInput) (d : Db Tables)
    (r : ApprovalReceipt)
    → (consume_approval_receipt_for_operation x now input d).0 ≡ ok r
    → Consumed x now input d.tables
        (consume_approval_receipt_for_operation x now input d).1.tables
        r
unfolding consume_approval_receipt_for_operation consume_approval_receipt_by_token_hash
consume-Consumed x now input d r h =
    let p = λ (a : ApprovalReceipt). a.token_hash == x.sha256_hex input.token in
    let f = consume_receipt (trim_space input.consumed_by) now (constraints_of input) in
    let (_, same) =
      raise-ok (trim_space input.token == "") invalid_governance_input
        (attempt (edit p f) >>= λ c. lift (or_invalid_receipt c)) d r h in
    let k : (edit p f d).0 ≡ ok r = or_invalid-ok _ r (subst (λ c. c.0 ≡ ok r) same h) in
    let (old, stored, hit, edited, _, written) = edit-ok p f d r k in
    let (pending, live, met, made) = consume_receipt-ok _ now _ old r edited in
    (old, stored, (eq_iff _ _).0 hit, pending, live, met, made, ap (λ c. c.1.tables) same ∙ written)

Consumed-In :
    (x : Externals) (now : ℕ) (input : ConsumeApprovalReceiptInput) (before after : Tables)
    (r : ApprovalReceipt)
    → Consumed x now input before after r
    → In r after.receipts × (r.status ≢ "pending") × (r.token_hash ≡ x.sha256_hex input.token)
Consumed-In x now input before after r (old, stored, hash, pending, live, met, made, written) = (
  rw written (
      In-update_self (λ a. a.id == r.id) r before.receipts old stored
        ((nat_beq_iff _ _).1 (sym (ap (λ s. s.id) made)))),
  λ e. ground (arith, eq_iff "consumed" "pending"),
  ap (λ s. s.token_hash) made ∙ hash,
)

-- A token is good for one consumption. After a call that consumed a receipt, and any number of
-- other calls on receipts, whatever the database refuses, no call with the same token consumes a
-- receipt. The tables are those that the service can reach: no two receipts share a key.
pub consume-once :
    (x : Externals) (now later : ℕ) (input input' : ConsumeApprovalReceiptInput) (cs : List Call)
    (d : Db Tables) (r r' : ApprovalReceipt)
    → IsKeyed d.tables.receipts
    → (consume_approval_receipt_for_operation x now input d).0 ≡ ok r
    → input'.token ≡ input.token
    → let d' = calls x cs (call x (consumes now input) d) in
      (consume_approval_receipt_for_operation x later input' d').0 ≢ ok r'
unfolding call calls
consume-once x now later input input' cs d r r' k h same again =
    let after = call x (consumes now input) d in
    let (stored, settled, hash) =
      Consumed-In x now input d.tables after.tables r (consume-Consumed x now input d r h) in
    let keyed = calls-IsKeyed x (consumes now input ∷ []) d k in
    let still = calls-final x cs after r keyed stored settled in
    let final = calls x cs after in
    let (old, found, hash', pending, _, _, _, _) = consume-Consumed x later input' final r' again in
    let one : old ≡ r =
      (calls-IsKeyed x cs after keyed).by_hash old r found still
        (hash' ∙ ap x.sha256_hex same ∙ sym hash) in
    settled (ap (λ s. s.status) (sym one) ∙ pending)
