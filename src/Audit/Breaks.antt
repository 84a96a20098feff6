-- ===== src/Audit/Breaks.antt =====
-- Which rows add no break to VerifyHashChain (internal/service/audit.go).
use agent_os_backend.Prelude.{
  ℕ, suc, String, Bool, true, false, ◌≡◌, ◌≢◌, refl, sym, ap, ◌∙◌, subst, List, [], ◌∷◌, arith,
  ◌==◌, ◌!=◌, ◌||◌, string_eq, nat_eq, Bool-cases, inl, inr, eq_iff, nat_beq_iff,
}
use agent_os_backend.Errors.{Result, ok, err}
use agent_os_backend.Audit.Rows.{AuditEvent}
use agent_os_backend.Audit.Service.{
  Externals, AuditHashChainVerification, compute_audit_event_hash, sha256, verify_rows,
  check_hashes, check_hash, check_link, add_break, advance, break_if,
}
use agent_os_backend.Audit.Chain.{Chain, tip_hash}

differ-false : (a b : String) → (a != b) ≡ false → a ≡ b
differ-false a b h = ground (arith, eq_iff a b)

same-differ : (a b : String) → a ≡ b → (a != b) ≡ false
same-differ a b h = ground (arith, eq_iff a b)

break_if-valid :
    (c : Bool) (e : AuditEvent) (reason expected actual : String) (r : AuditHashChainVerification)
    → (break_if c e reason expected actual r).valid ≡ true
    → (c ≡ false) × (break_if c e reason expected actual r ≡ r)
unfolding break_if add_break
break_if-valid true e reason expected actual r h = cc
break_if-valid false e reason expected actual r h = (refl, refl)

break_if-kept :
    (c : Bool) (e : AuditEvent) (reason expected actual : String) (r : AuditHashChainVerification)
    → c ≡ false
    → break_if c e reason expected actual r ≡ r
unfolding break_if
break_if-kept c e reason expected actual r h = rw h

module _ (x : Externals) where
  check_link-kept :
      (prev : String) (seq : ℕ) (e : AuditEvent) (r : AuditHashChainVerification)
      → e.previous_hash ≡ prev
      → e.sequence ≡ suc seq
      → check_link x prev seq e r ≡ r
  unfolding check_link
  check_link-kept prev seq e r p s =
      break_if-kept _ e _ _ _ _ (same-differ _ _ p)
      ∙ break_if-kept _ e _ _ _ r (ground (arith, nat_beq_iff e.sequence (suc seq)))

  check_link-valid :
      (prev : String) (seq : ℕ) (e : AuditEvent) (r : AuditHashChainVerification)
      → (check_link x prev seq e r).valid ≡ true
      → (e.previous_hash ≡ prev) × (e.sequence ≡ suc seq) × (check_link x prev seq e r ≡ r)
  unfolding check_link
  check_link-valid prev seq e r h =
      let (p, k) = break_if-valid (e.previous_hash != prev) e _ _ _ _ h in
      let (s, k') =
        break_if-valid (e.sequence != suc seq) e _ _ _ r (subst (λ v. v.valid ≡ true) k h) in
      (differ-false _ _ p, ground (arith, nat_beq_iff e.sequence (suc seq)), k ∙ k')

  check_hash-valid :
      (e : AuditEvent) (h : Result String) (r v : AuditHashChainVerification)
      → check_hash x e h r ≡ ok v
      → v.valid ≡ true
      → (h ≡ ok e.event_hash) × (v ≡ r)
  unfolding check_hash
  check_hash-valid e (err error) r v h k = cc
  check_hash-valid e (ok expected) r v h k =
      let same : break_if (e.event_hash != expected) e "hash_mismatch" expected e.event_hash r ≡ v =
        ground arith in
      let (c, kept) =
        break_if-valid (e.event_hash != expected) e _ _ _ r (ap (λ a. a.valid) same ∙ k) in
      (ap ok (sym (differ-false _ _ c)), sym same ∙ kept)

  check_hashes-kept :
      (e : AuditEvent) (r : AuditHashChainVerification)
      → e.event_hash ≢ ""
      → e.previous_hash ≢ ""
      → compute_audit_event_hash x e ≡ ok e.event_hash
      → check_hashes x e r ≡ ok r
  unfolding check_hashes check_hash
  check_hashes-kept e r filled anchored hashed =
      let there : (e.event_hash == "" || e.previous_hash == "") ≡ false =
        ground (arith, eq_iff e.event_hash "", eq_iff e.previous_hash "") in
      rw (there, check_hashes)
        (rw (hashed, check_hash) (ap ok (break_if-kept _ e _ _ _ r (same-differ _ _ refl))))

  check_hashes-valid :
      (e : AuditEvent) (r v : AuditHashChainVerification)
      → check_hashes x e r ≡ ok v
      → v.valid ≡ true
      → (e.event_hash ≢ "")
        × (e.previous_hash ≢ "")
        × (compute_audit_event_hash x e ≡ ok e.event_hash)
        × (v ≡ r)
  unfolding check_hashes add_break
  check_hashes-valid e r v h k = elim (Bool-cases (e.event_hash == "" || e.previous_hash == "")) [
    | inl t ↦ absurd (ground arith)
    | inr t ↦
        let (c, same) =
          check_hash-valid e (compute_audit_event_hash x e) r v (rw (t, check_hashes) at h) k in
        (
          λ z. ground (arith, eq_iff e.event_hash "", t),
          λ z. ground (arith, eq_iff e.previous_hash "", t),
          c,
          same,
        )
  ]

  pub verify_rows-Chain :
      (prev : String) (seq : ℕ) (es : List AuditEvent) (r : AuditHashChainVerification)
      → Chain x prev seq es
      → (v : AuditHashChainVerification) × (verify_rows x prev seq es r ≡ ok v)
        × (v.valid ≡ r.valid)
        × (v.breaks ≡ r.breaks)
  unfolding advance verify_rows
  verify_rows-Chain prev seq [] r c = (r, refl, refl, refl)
  verify_rows-Chain prev seq (e ∷ es) r c =
      let l = c.0 in
      let linked = check_link-kept prev seq e r l.follows l.numbered in
      let checked : check_hashes x e (check_link x prev seq e r) ≡ ok r =
        ap (check_hashes x e) linked ∙ check_hashes-kept e r l.filled l.anchored l.hashed in
      let (v, verified, valid, breaks) =
        verify_rows-Chain e.event_hash e.sequence es (advance x e r) c.1 in
      (v, rw (same-differ _ _ l.by_sha256, checked, verify_rows) verified, valid, breaks)

  -- What a verification that ends with no break has seen.
  abbrev Verified :
      String
      → ℕ
      → List AuditEvent
      → AuditHashChainVerification
      → AuditHashChainVerification
      → Type 0
  Verified prev seq es r v =
      (r.valid ≡ true)
      × Chain x prev seq es
      × (v.checked ≡ r.checked)
      × (v.head_hash ≡ tip_hash r.head_hash es)

  broken :
      (e : AuditEvent) (reason expected actual : String) (r : AuditHashChainVerification)
      → (add_break e reason expected actual r).valid ≢ true
  unfolding add_break
  broken e reason expected actual r z = cc

  -- One round of the loop, with the rest of the rows verified already.
  pub checked :
      (prev : String) (seq : ℕ) (e : AuditEvent) (es : List AuditEvent)
      (r v : AuditHashChainVerification) (c : Result AuditHashChainVerification)
      → ((found : AuditHashChainVerification)
          → verify_rows x e.event_hash e.sequence es (advance x e found) ≡ ok v
          → Verified e.event_hash e.sequence es (advance x e found) v)
      → check_hashes x e (check_link x prev seq e r) ≡ c
      → elim c [
        | err error ↦ err error
        | ok found ↦ verify_rows x e.event_hash e.sequence es (advance x e found)
      ]
        ≡ ok v
      → e.hash_algorithm ≡ sha256
      → Verified prev seq (e ∷ es) r v
  unfolding advance
  checked prev seq e es r v (err error) rest q z a = cc
  checked prev seq e es r v (ok found) rest q z a =
      let (valid, c, count, head) = rest found z in
      let (filled, anchored, hashed, same) =
        check_hashes-valid e (check_link x prev seq e r) found q valid in
      let (follows, numbered, same') =
        check_link-valid prev seq e r (ap (λ b. b.valid) (sym same) ∙ valid) in
      let kept : found ≡ r = same ∙ same' in
      (
        ap (λ b. b.valid) (sym kept) ∙ valid,
        (
          record {
            numbered = numbered;
            follows = follows;
            filled = filled;
            anchored = anchored;
            hashed = hashed;
            by_sha256 = a;
          },
          c,
        ),
        count ∙ ap (λ b. b.checked) kept,
        head,
      )

  pub verify_rows-Verified :
      (prev : String) (seq : ℕ) (es : List AuditEvent) (r v : AuditHashChainVerification)
      → verify_rows x prev seq es r ≡ ok v
      → v.valid ≡ true
      → Verified prev seq es r v
  unfolding verify_rows
  verify_rows-Verified prev seq [] r v h k =
      let same : r ≡ v = ground arith in
      (
        ap (λ a. a.valid) same ∙ k,
        tt,
        ap (λ a. a.checked) (sym same),
        ap (λ a. a.head_hash) (sym same),
      )
  verify_rows-Verified prev seq (e ∷ es) r v h k = elim (Bool-cases (e.hash_algorithm != sha256)) [
    | inl t ↦ absurd (
        broken e "unsupported_hash_algorithm" sha256 e.hash_algorithm r
          (verify_rows-Verified prev seq es
            (add_break e "unsupported_hash_algorithm" sha256 e.hash_algorithm r) v
            (rw (t, verify_rows) at h) k).0)
    | inr t ↦
        checked prev seq e es r v (check_hashes x e (check_link x prev seq e r))
          (λ found z. verify_rows-Verified e.event_hash e.sequence es (advance x e found) v z k)
          refl (rw (t, verify_rows) at h) (differ-false _ _ t)
  ]
