-- ===== src/Governance/Edits.antt =====
-- What a transaction on approval receipts (internal/repository/governance_repo.go) does to the receipts:
-- one is added, or one that is pending is changed.
use agent_os_backend.Prelude.{
  ℕ, String, Bool, true, false, ◌≡◌, ◌≢◌, ap, sym, subst, ◌∙◌, ap₂, List, [], ◌∷◌, ◌++◌, arith, In,
  inl, inr, ◌==◌, ◌!=◌, ◌&&◌, ◌||◌, string_eq, nat_eq, Bool-cases, eq_iff, nat_beq_iff,
}
use mathlib.Core.Path.{subst₂}
use agent_os_backend.Errors.{Error, Result, ok, err}
use agent_os_backend.Db.{Db, Exec, ◌>>=◌, next, transaction, select, lift}
use agent_os_backend.Db.Laws.{
  >>=-ok, statement-ok, statement-err, select-ok, tables-select, transaction-ok, transaction-err,
}
use agent_os_backend.Table.{any, update, first}
use agent_os_backend.Table.Finding.{first-ok, any-false}
use agent_os_backend.Table.Members.{All-In, append-In, In-append_left, update-In, In-update_ne}
use agent_os_backend.Governance.Rows.{Tables, ApprovalReceipt}
use agent_os_backend.Governance.Repo
use agent_os_backend.Governance.Repo.{save_receipt}

-- No two receipts share an identifier or the hash of a token.
pub record IsKeyed (rs : List ApprovalReceipt) : Type 0 where
  pub by_id : (a b : ApprovalReceipt) → In a rs → In b rs → a.id ≡ b.id → a ≡ b
  pub by_hash : (a b : ApprovalReceipt) → In a rs → In b rs → a.token_hash ≡ b.token_hash → a ≡ b

-- What one call may do to the receipts.
pub data Change (rs : List ApprovalReceipt) : List ApprovalReceipt → Type 0 where
  kept : (after : List ApprovalReceipt) → after ≡ rs → Change rs after
  added :
      (r : ApprovalReceipt) (after : List ApprovalReceipt)
      → ((a : ApprovalReceipt) → In a rs → (a.id ≢ r.id) × (a.token_hash ≢ r.token_hash))
      → after ≡ rs ++ r ∷ []
      → Change rs after
  saved :
      (old r : ApprovalReceipt) (after : List ApprovalReceipt)
      → In old rs
      → old.status ≡ "pending"
      → r.id ≡ old.id
      → ((a : ApprovalReceipt) → In a rs → a.id ≢ r.id → a.token_hash ≢ r.token_hash)
      → after ≡ update (λ x. x.id == r.id) (λ _. r) rs
      → Change rs after

pub Change-IsKeyed :
    {rs after : List ApprovalReceipt} → Change rs after → IsKeyed rs → IsKeyed after
Change-IsKeyed (kept after e) k = rw e k
Change-IsKeyed {rs} (added r after new e) k = rw e (record {
  by_id = λ a b ha hb s. elim (append-In rs r a ha) [
    | inl ia ↦ elim (append-In rs r b hb) [
      | inl ib ↦ k.by_id a b ia ib s
      | inr eb ↦ absurd ((new a ia).0 (ground arith))
    ]
    | inr ea ↦ elim (append-In rs r b hb) [
      | inl ib ↦ absurd ((new b ib).0 (ground arith))
      | inr eb ↦ ea ∙ sym eb
    ]
  ];
  by_hash = λ a b ha hb s. elim (append-In rs r a ha) [
    | inl ia ↦ elim (append-In rs r b hb) [
      | inl ib ↦ k.by_hash a b ia ib s
      | inr eb ↦ absurd ((new a ia).1 (ground arith))
    ]
    | inr ea ↦ elim (append-In rs r b hb) [
      | inl ib ↦ absurd ((new b ib).1 (ground arith))
      | inr eb ↦ ea ∙ sym eb
    ]
  ];
})
Change-IsKeyed {rs} (saved old r after stored pending same clash e) k = rw e (record {
  by_id = λ a b ha hb s. elim (update-In (λ x. x.id == r.id) r rs a ha) [
    | inl ea ↦ elim (update-In (λ x. x.id == r.id) r rs b hb) [
      | inl eb ↦ ea ∙ sym eb
      | inr ib ↦ absurd (ground arith)
    ]
    | inr ia ↦ elim (update-In (λ x. x.id == r.id) r rs b hb) [
      | inl eb ↦ absurd (ground arith)
      | inr ib ↦ k.by_id a b ia.0 ib.0 s
    ]
  ];
  by_hash = λ a b ha hb s. elim (update-In (λ x. x.id == r.id) r rs a ha) [
    | inl ea ↦ elim (update-In (λ x. x.id == r.id) r rs b hb) [
      | inl eb ↦ ea ∙ sym eb
      | inr ib ↦ absurd (clash b ib.0 (ground arith) (ground arith))
    ]
    | inr ia ↦ elim (update-In (λ x. x.id == r.id) r rs b hb) [
      | inl eb ↦ absurd (clash a ia.0 (ground arith) (ground arith))
      | inr ib ↦ k.by_hash a b ia.0 ib.0 s
    ]
  ];
})

-- A receipt that is not pending stays as it is.
pub Change-final :
    {rs after : List ApprovalReceipt} (r : ApprovalReceipt)
    → Change rs after
    → IsKeyed rs
    → In r rs
    → r.status ≢ "pending"
    → In r after
Change-final r (kept after e) k h s = rw e h
Change-final {rs} r (added n after new e) k h s = rw e (In-append_left rs (n ∷ []) r h)
Change-final {rs} r (saved old n after stored pending same clash e) k h s =
    elim (Bool-cases (r.id == n.id)) [
      | inl t ↦ let q : r ≡ old = k.by_id r old h stored (ground arith) in absurd (s (rw q pending))
      | inr t ↦ rw e (In-update_ne (λ x. x.id == n.id) (λ _. n) rs r h t)
    ]

-- The three transactions on a receipt have one shape.
abbrev pub edit :
    (ApprovalReceipt → Bool)
    → (ApprovalReceipt → Result ApprovalReceipt)
    → Exec Tables ApprovalReceipt
edit p f =
    transaction
      do receipt ← select (λ t. first p t.receipts); edited ← lift (f receipt); save_receipt edited

-- The rows after the receipt `r` has been saved.
abbrev pub with_receipt : Tables → ApprovalReceipt → Tables
with_receipt t r = record t { receipts = update (λ x. x.id == r.id) (λ _. r) t.receipts }

abbrev pub clash : List ApprovalReceipt → ApprovalReceipt → Bool
clash rs r = any (λ x. x.id != r.id && x.token_hash == r.token_hash) rs

-- What a transaction that succeeded has found and written.
abbrev pub Edited :
    (ApprovalReceipt → Bool)
    → (ApprovalReceipt → Result ApprovalReceipt)
    → Tables
    → Tables
    → ApprovalReceipt
    → Type 0
Edited p f before after r =
    (old : ApprovalReceipt) × In old before.receipts
    × (p old ≡ true)
    × (f old ≡ ok r)
    × (clash before.receipts r ≡ false)
    × (after ≡ with_receipt before r)

save-ok :
    (r s : ApprovalReceipt) (d : Db Tables)
    → (save_receipt r d).0 ≡ ok s
    → (s ≡ r)
      × (clash d.tables.receipts r ≡ false)
      × ((save_receipt r d).1.tables ≡ with_receipt d.tables r)
unfolding save_receipt
save-ok r s d h = let k = statement-ok _ d s h in ground arith

module _ (p : ApprovalReceipt → Bool) (f : ApprovalReceipt → Result ApprovalReceipt) where
  pub edit-ok :
      (d : Db Tables) (r : ApprovalReceipt)
      → (edit p f d).0 ≡ ok r
      → Edited p f d.tables (edit p f d).1.tables r
  edit-ok d r h =
      let look : Exec Tables ApprovalReceipt = select (λ t. first p t.receipts) in
      let (inner, same) =
        transaction-ok (look >>= λ receipt. lift (f receipt) >>= save_receipt) d r h in
      let (old, found, k) =
        >>=-ok look (λ receipt. lift (f receipt) >>= save_receipt) (next d) r inner in
      let mid = (look (next d)).1 in
      let kept : mid.tables ≡ d.tables = tables-select (λ t. first p t.receipts) (next d) in
      let (new, edited, k') =
        >>=-ok (lift (f old)) save_receipt mid r (subst (λ c. c.0 ≡ ok r) k inner) in
      let (e, clear, written) = save-ok new r mid (subst (λ c. c.0 ≡ ok r) (k ∙ k') inner) in
      let (stored, meant) = first-ok p d.tables.receipts old (select-ok _ (next d) old found) in
      let done : (edit p f d).1.tables ≡ (save_receipt new mid).1.tables =
        same ∙ ap (λ c. c.1.tables) (k ∙ k') in
      (
        old,
        stored,
        meant,
        subst (λ s. f old ≡ ok s) (sym e) edited,
        subst₂ (λ t s. clash t.receipts s ≡ false) kept (sym e) clear,
        done ∙ written ∙ ap₂ with_receipt kept (sym e),
      )

  edit-err : (d : Db Tables) (e : Error) → (edit p f d).0 ≡ err e → (edit p f d).1.tables ≡ d.tables
  edit-err d e h = transaction-err _ d e h

Edited-Change :
    {p : ApprovalReceipt → Bool} {f : ApprovalReceipt → Result ApprovalReceipt}
    {before after : Tables} (r : ApprovalReceipt)
    → ((a b : ApprovalReceipt) → f a ≡ ok b → (a.status ≡ "pending") × (b.id ≡ a.id))
    → Edited p f before after r
    → Change before.receipts after.receipts
Edited-Change {before = before} r keeps (old, stored, _, edited, clear, written) =
    let (pending, same) = keeps old r edited in
    saved old r _ stored pending same
      (λ a h n e.
        let k = All-In _ before.receipts a (any-false _ before.receipts clear) h in
        ground (arith, nat_beq_iff a.id r.id, eq_iff a.token_hash r.token_hash))
      (ap (λ t. t.receipts) written)

pub consume_keeps :
    (by : String) (now : ℕ) (c : Repo.ApprovalReceiptConsumeConstraints) (a b : ApprovalReceipt)
    → Repo.consume_receipt by now c a ≡ ok b
    → (a.status ≡ "pending") × (b.id ≡ a.id)
unfolding Repo.consume_receipt
consume_keeps by now c a b h = ground (arith, eq_iff a.status "pending")

pub revoke_keeps :
    (reason : String) (now : ℕ) (a b : ApprovalReceipt)
    → Repo.revoke_receipt reason now a ≡ ok b
    → (a.status ≡ "pending") × (b.id ≡ a.id)
unfolding Repo.revoke_receipt
revoke_keeps reason now a b h = ground (arith, eq_iff a.status "pending")

pub reissue_keeps :
    (hash reason : String) (expires now : ℕ) (a b : ApprovalReceipt)
    → Repo.reissue_receipt hash reason expires now a ≡ ok b
    → (a.status ≡ "pending") × (b.id ≡ a.id)
unfolding Repo.reissue_receipt
reissue_keeps hash reason expires now a b h = ground (arith, eq_iff a.status "pending")

pub edit-Change :
    (p : ApprovalReceipt → Bool) (f : ApprovalReceipt → Result ApprovalReceipt) (d : Db Tables)
    (res : Result ApprovalReceipt)
    → ((a b : ApprovalReceipt) → f a ≡ ok b → (a.status ≡ "pending") × (b.id ≡ a.id))
    → (edit p f d).0 ≡ res
    → Change d.tables.receipts (edit p f d).1.tables.receipts
edit-Change p f d (ok r) keeps h = Edited-Change r keeps (edit-ok p f d r h)
edit-Change p f d (err e) keeps h = kept _ (ap (λ t. t.receipts) (edit-err p f d e h))

pub create-Change :
    (r : ApprovalReceipt) (d : Db Tables) (res : Result (Unit {0}))
    → (Repo.create_approval_receipt r d).0 ≡ res
    → Change d.tables.receipts (Repo.create_approval_receipt r d).1.tables.receipts
unfolding Repo.create_approval_receipt
create-Change r d (err e) h = kept _ (ap (λ t. t.receipts) (statement-err _ d e h))
create-Change r d (ok u) h =
    let k = statement-ok _ d u h in
    let fresh : any (λ x. x.id == r.id || x.token_hash == r.token_hash) d.tables.receipts ≡ false =
      ground arith in
    added r _
      (λ a i.
        let n = All-In _ d.tables.receipts a (any-false _ d.tables.receipts fresh) i in
        (
          λ e. ground (arith, nat_beq_iff a.id r.id),
          λ e. ground (arith, eq_iff a.token_hash r.token_hash),
        ))
      (ground arith)
