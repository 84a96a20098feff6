-- ===== src/Governance/Receipts.antt =====
-- The life of an approval receipt: it is created pending, and consuming or revoking it is final,
-- through any number of calls of the governance service and any failures of the database.
use agent_os_backend.Prelude.{
  ℕ, String, Bool, true, false, ◌≡◌, ◌≢◌, refl, sym, subst, Option, List, [], ◌∷◌, In, string_eq,
  nat_eq, trim_space, if◌then◌else◌, ◌+◌,
}
use agent_os_backend.Prelude.Int.{ℤ}
use agent_os_backend.Errors.{Error, Result, ok, err, invalid_governance_input}
use agent_os_backend.Db.{Db, Exec, ◌>>=◌, pure, lift, continue, raise}
use agent_os_backend.Governance.Rows.{Tables, ApprovalReceipt, Fresh}
use agent_os_backend.Governance.Repo
use agent_os_backend.Governance.Repo.{save_receipt}
use agent_os_backend.Governance.Policies.{Externals}
use agent_os_backend.Governance.Service.{
  ConsumeApprovalReceiptInput, CreateApprovalReceiptInput, create_approval_receipt,
  consume_approval_receipt_for_operation, revoke_approval_receipt, reissue_approval_receipt_token,
  new_governance_token, new_receipt, token_span, or_invalid_receipt,
}
use agent_os_backend.Governance.Edits.{
  IsKeyed, Change, kept, Change-IsKeyed, Change-final, consume_keeps, revoke_keeps, reissue_keeps,
  edit-Change, create-Change,
}

-- An action that makes one change, whether it returns or fails.
abbrev Changes : {A : Type 0} → Exec Tables A → Type 0
Changes m = (d : Db Tables) → Change d.tables.receipts (m d).1.tables.receipts

Changes-if :
    {A : Type 0} (b : Bool) (e : Error) (m : Exec Tables A)
    → Changes m
    → Changes (if b then raise e else m)
Changes-if true e m h d = kept _ refl
Changes-if false e m h d = h d

Changes-lift :
    {A B : Type 0} (r : Result A) (f : A → Exec Tables B)
    → ((a : A) → Changes (f a))
    → Changes (lift r >>= f)
Changes-lift (ok a) f h d = h a d
Changes-lift (err e) f h d = kept _ refl

map-keeps :
    {A B : Type 0} (r : Result A) (g : A → B) (d : Db Tables)
    → ((lift r >>= λ a. pure (g a)) d).1 ≡ d
map-keeps (ok a) g d = refl
map-keeps (err e) g d = refl

-- What follows the change only makes up the result.
Changes-map :
    {A B : Type 0} (m : Exec Tables A) (g : A → Result B)
    → Changes m
    → Changes (m >>= λ a. lift (g a))
Changes-map {A} {B} m g h d = go (m d) (h d)
  where
    go :
        (c : Result A × Db Tables)
        → Change d.tables.receipts c.1.tables.receipts
        → Change d.tables.receipts (continue {B = B} (λ a. lift (g a)) c.0 c.1).1.tables.receipts
    go (ok a, d') k = k
    go (err e, d') k = k

-- A call of the governance service on approval receipts, with what it is given from outside.
pub data Call : Type 0 where
  creates : Fresh → ℕ → Option String → CreateApprovalReceiptInput → Call
  consumes : ℕ → ConsumeApprovalReceiptInput → Call
  revokes : ℕ → ℕ → String → Call
  reissues : ℕ → Option String → ℕ → String → ℤ → Call

module _ (x : Externals) where
  unfoldable pub call : Call → Db Tables → Db Tables
  call (creates fresh now random input) d = (create_approval_receipt x fresh now random input d).1
  call (consumes now input) d = (consume_approval_receipt_for_operation x now input d).1
  call (revokes now id reason) d = (revoke_approval_receipt now id reason d).1
  call (reissues now random id reason ttl) d =
      (reissue_approval_receipt_token x now random id reason ttl d).1

  unfoldable pub calls : List Call → Db Tables → Db Tables
  unfolding call
  calls [] d = d
  calls (c ∷ cs) d = calls cs (call c d)

  create_receipt-Change :
      (fresh : Fresh) (now : ℕ) (random : Option String) (input : CreateApprovalReceiptInput)
      → Changes (create_approval_receipt x fresh now random input)
  unfolding create_approval_receipt
  create_receipt-Change fresh now random input = Changes-if _ invalid_governance_input _ (
      Changes-lift (new_governance_token x random) _ λ made.
        let receipt = new_receipt x fresh now input made.1 in
        Changes-map (Repo.create_approval_receipt receipt) (λ _. ok (receipt, made.0))
          (λ d. create-Change receipt d _ refl))

  consume-Change :
      (now : ℕ) (input : ConsumeApprovalReceiptInput)
      → Changes (consume_approval_receipt_for_operation x now input)
  unfolding consume_approval_receipt_for_operation Repo.consume_approval_receipt_by_token_hash
  consume-Change now input =
      Changes-if _ invalid_governance_input _
        (λ d. edit-Change _ _ d _ (consume_keeps (trim_space input.consumed_by) now _) refl)

  revoke-Change : (now id : ℕ) (reason : String) → Changes (revoke_approval_receipt now id reason)
  unfolding revoke_approval_receipt Repo.revoke_approval_receipt
  revoke-Change now id reason =
      Changes-if _ invalid_governance_input _
        (λ d. edit-Change _ _ d _ (revoke_keeps (trim_space reason) now) refl)

  reissue-Change :
      (now : ℕ) (random : Option String) (id : ℕ) (reason : String) (ttl : ℤ)
      → Changes (reissue_approval_receipt_token x now random id reason ttl)
  unfolding reissue_approval_receipt_token Repo.reissue_approval_receipt_token
  reissue-Change now random id reason ttl = Changes-if _ invalid_governance_input _ (
      Changes-lift (new_governance_token x random) _ λ made. λ d.
        let reissue =
          Repo.reissue_approval_receipt_token id made.1 (trim_space reason) (now + token_span ttl)
            now in
        subst (λ c. Change d.tables.receipts c.tables.receipts)
          (sym (map-keeps (or_invalid_receipt (reissue d).0) (λ r. (r, made.0)) (reissue d).1))
          (edit-Change _ _ d _ (reissue_keeps made.1 (trim_space reason) _ now) refl))

  call-Change : (c : Call) (d : Db Tables) → Change d.tables.receipts (call c d).tables.receipts
  unfolding call
  call-Change (creates fresh now random input) d = create_receipt-Change fresh now random input d
  call-Change (consumes now input) d = consume-Change now input d
  call-Change (revokes now id reason) d = revoke-Change now id reason d
  call-Change (reissues now random id reason ttl) d = reissue-Change now random id reason ttl d

  -- Through any calls on receipts, some of which fail, no two receipts come to share an identifier
  -- or the hash of a token, if no two did before.
  pub calls-IsKeyed :
      (cs : List Call) (d : Db Tables)
      → IsKeyed d.tables.receipts
      → IsKeyed (calls cs d).tables.receipts
  unfolding calls
  calls-IsKeyed [] d k = k
  calls-IsKeyed (c ∷ cs) d k = calls-IsKeyed cs (call c d) (Change-IsKeyed (call-Change c d) k)

  -- A receipt that has been consumed or revoked is never changed again and never removed, whatever
  -- calls follow: create, consume, revoke and reissue calls in any order, some of which fail.
  pub calls-final :
      (cs : List Call) (d : Db Tables) (r : ApprovalReceipt)
      → IsKeyed d.tables.receipts
      → In r d.tables.receipts
      → r.status ≢ "pending"
      → In r (calls cs d).tables.receipts
  unfolding calls
  calls-final [] d r k h s = h
  calls-final (c ∷ cs) d r k h s =
      let step = call-Change c d in
      calls-final cs (call c d) r (Change-IsKeyed step k) (Change-final r step k h s) s

-- The table with no row is keyed, so every table that the service reaches from it is.
pub no_receipts-IsKeyed : IsKeyed []
no_receipts-IsKeyed = record { by_id = λ a b h. elim h [ ]; by_hash = λ a b h. elim h [ ] }
