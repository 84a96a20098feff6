-- ===== src/Audit/Verification.antt =====
-- VerifyHashChain (internal/service/audit.go) finds exactly the breaks of the chain, and a chain
-- that it finds whole is determined by its length and its last hash.
use agent_os_backend.Prelude.{
  ℕ, String, true, false, ◌≡◌, ◌≢◌, ◌↔◌, refl, sym, ap, ◌∙◌, subst, List, [], ◌∷◌, arith, string_eq,
  nat_eq, length, In, map, All, ◌<◌,
}
use agent_os_backend.Errors.{Result, ok}
use agent_os_backend.Audit.Rows.{AuditEvent, Tables}
use agent_os_backend.Audit.Service.{
  Externals, AuditHashChainVerification, compute_audit_event_hash, genesis, verify_rows,
  verify_hash_chain, payload,
}
use agent_os_backend.Audit.Chain.{Chain, tip_hash, Chain-rises, Chain-tip}
use agent_os_backend.Db.{Db, lift}
use agent_os_backend.Table.{sort_by, insert_by}
use agent_os_backend.Audit.Repo.{event_before, list_hash_chain, limited}
use agent_os_backend.Prelude.Int.{pos}
use agent_os_backend.Audit.Recording.{Recording, record_events, record_events-IsChained}
use agent_os_backend.Db.Laws.{>>=-ok, select-ok, select-served}
use agent_os_backend.Audit.Breaks.{verify_rows-Chain, verify_rows-Verified}

abbrev pub chain_rows : Tables → List AuditEvent
chain_rows t = sort_by event_before t.events

-- the result before the first row
abbrev start : List AuditEvent → AuditHashChainVerification
start es = record {
  valid = true;
  checked = length es;
  head_hash = "";
  head_sequence = 0;
  breaks = [];
}

verified_rows :
    (x : Externals) (d : Db Tables) (v : AuditHashChainVerification)
    → (verify_hash_chain x (pos 0) d).0 ≡ ok v
    → verify_rows x genesis 0 (chain_rows d.tables) (start (chain_rows d.tables)) ≡ ok v
unfolding verify_hash_chain list_hash_chain limited
verified_rows x d v h =
    let (es, found, k) =
      >>=-ok (list_hash_chain (pos 0)) (λ es. lift (verify_rows x genesis 0 es (start es))) d v h in
    let same : chain_rows d.tables ≡ es = ground (arith, select-ok _ d es found) in
    subst (λ l. verify_rows x genesis 0 l (start l) ≡ ok v) (sym same) (subst (λ c. c.0 ≡ ok v) k h)

-- VerifyHashChain without a limit calls a log valid exactly where its rows, in the order of their
-- sequence, form one chain from the genesis hash: the sequences count up from 1 without a gap, each
-- row carries the hash of the one before, each hash is there and is that of the row's contents, and
-- SHA-256 made them all.
pub verify_hash_chain-Chain :
    (x : Externals) (d : Db Tables) (v : AuditHashChainVerification)
    → (verify_hash_chain x (pos 0) d).0 ≡ ok v
    → (v.valid ≡ true) ↔ Chain x genesis 0 (chain_rows d.tables)
verify_hash_chain-Chain x d v h =
    let es = chain_rows d.tables in
    let run = verified_rows x d v h in
    (
      λ k. (verify_rows-Verified x genesis 0 es (start es) v run k).1,
      λ c.
          let (w, done, valid, _) = verify_rows-Chain x genesis 0 es (start es) c in
          let one : ◌≡◌ {A = Result AuditHashChainVerification} (ok v) (ok w) = sym run ∙ done in
          let same : v ≡ w = ground arith in ap (λ r. r.valid) same ∙ valid,
    )

-- The two starting points of a chain's hash agree where the other is nonempty as well.
tips_from :
    (es es' : List AuditEvent)
    → length es ≡ length es'
    → tip_hash "" es ≡ tip_hash "" es'
    → tip_hash genesis es ≡ tip_hash genesis es'
tips_from [] [] n e = refl
tips_from [] (y ∷ ys) n e = absurd (omega (arith, n))
tips_from (y ∷ ys) [] n e = absurd (omega (arith, n))
tips_from (y ∷ ys) (z ∷ zs) n e = e

-- Two logs that VerifyHashChain finds valid, with as many rows and with the same last hash, say the
-- same, unless two rows of the logs with different contents hash alike.
pub verify_hash_chain-tamper_evident :
    (x : Externals) (d d' : Db Tables) (v v' : AuditHashChainVerification)
    → ((a b : AuditEvent)
        → In a (chain_rows d.tables)
        → In b (chain_rows d'.tables)
        → compute_audit_event_hash x a ≡ compute_audit_event_hash x b
        → payload x a ≡ payload x b)
    → (verify_hash_chain x (pos 0) d).0 ≡ ok v
    → (verify_hash_chain x (pos 0) d').0 ≡ ok v'
    → v.valid ≡ true
    → v'.valid ≡ true
    → v.checked ≡ v'.checked
    → v.head_hash ≡ v'.head_hash
    → map (payload x) (chain_rows d.tables) ≡ map (payload x) (chain_rows d'.tables)
verify_hash_chain-tamper_evident x d d' v v' apart h h' k k' n e =
    let es = chain_rows d.tables in
    let es' = chain_rows d'.tables in
    let (_, c, count, head) =
      verify_rows-Verified x genesis 0 es (start es) v (verified_rows x d v h) k in
    let (_, c', count', head') =
      verify_rows-Verified x genesis 0 es' (start es') v' (verified_rows x d' v' h') k' in
    let long : length es ≡ length es' = sym count ∙ n ∙ count' in
    (Chain-tip x genesis genesis 0 0 es es' apart c c' long
      (tips_from es es' long (sym head ∙ e ∙ head'))).0

event_before-le :
    (e : AuditEvent) (es : List AuditEvent)
    → All (λ a. e.sequence < a.sequence) es
    → insert_by event_before e es ≡ e ∷ es
unfolding insert_by event_before
event_before-le e [] h = refl
event_before-le e (a ∷ rest) h = ground arith

-- A chain is in the order of its sequences already.
sort_by-Chain :
    (x : Externals) (prev : String) (seq : ℕ) (es : List AuditEvent)
    → Chain x prev seq es
    → sort_by event_before es ≡ es
unfolding sort_by
sort_by-Chain x prev seq [] c = refl
sort_by-Chain x prev seq (e ∷ es) c =
    rw (sort_by-Chain x e.event_hash e.sequence es c.1)
      (event_before-le e es (Chain-rises x e.event_hash e.sequence es c.1))

verify_hash_chain-served :
    (x : Externals) (d : Db Tables)
    → d.refuses d.issued ≡ false
    → (verify_hash_chain x (pos 0) d).0
      ≡ verify_rows x genesis 0 (chain_rows d.tables) (start (chain_rows d.tables))
unfolding verify_hash_chain list_hash_chain limited
verify_hash_chain-served x d h = rw (select-served (λ t. ok (chain_rows t)) d h) refl

-- VerifyHashChain returns, with no break, and calls a log valid that Record has built: after any
-- calls that record events, of which some may fail, on an empty log, where SHA-256 gives no empty
-- text, the timestamp column keeps the time of every event exactly, and the database serves the
-- query of the rows.
pub records-valid :
    (x : Externals) (cs : List Recording) (d : Db Tables)
    → ((s : String) → x.sha256_hex s ≢ "")
    → All (λ c. x.stored_time c.now ≡ c.now) cs
    → d.tables.events ≡ []
    → (record_events x cs d).refuses (record_events x cs d).issued ≡ false
    → (v : AuditHashChainVerification) × ((verify_hash_chain x (pos 0) (record_events x cs d)).0
        ≡ ok v)
      × (v.valid ≡ true)
      × (v.breaks ≡ [])
records-valid x cs d filled precise none_yet served =
    let after = record_events x cs d in
    let c = record_events-IsChained x filled cs d precise (rw none_yet tt) in
    let ordered : Chain x genesis 0 (chain_rows after.tables) =
      rw (sort_by-Chain x genesis 0 after.tables.events c) c in
    let (v, done, valid, breaks) =
      verify_rows-Chain x genesis 0 (chain_rows after.tables) (start (chain_rows after.tables))
        ordered in
    (v, verify_hash_chain-served x after served ∙ done, valid, breaks)
