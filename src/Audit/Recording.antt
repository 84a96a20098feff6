-- ===== src/Audit/Recording.antt =====
-- Record (internal/service/audit.go) keeps the chain of the audit log.
use agent_os_backend.Prelude.{
  ℕ, suc, String, ◌≡◌, ◌≢◌, refl, sym, ap, ◌∙◌, subst, Option, some, List, [], ◌∷◌, ◌++◌, arith,
  ◌==◌, ◌||◌, string_eq, trim_space, Bool-cases, inl, inr, eq_iff, Option-cases, All,
}
use agent_os_backend.Errors.{Result, ok, err, Error}
use agent_os_backend.Db.{Db, Exec, ◌>>=◌, pure, lift, select, next, continue}
use agent_os_backend.Db.Laws.{
  >>=-ok, transaction-ok, transaction-err, statement-ok, select-ok, tables-select,
}
use agent_os_backend.Audit.Rows.{AuditEvent, Tables}
use agent_os_backend.Audit.Repo.{create, append_hash_chained, latest, next_sequence}
use agent_os_backend.Audit.Service.{
  Externals, RecordAuditEventInput, compute_audit_event_hash, payload, genesis, sha256, new_event,
  prepare, previous_hash, record_event, with_hash, digest,
}
use agent_os_backend.Audit.Chain.{
  Linked, Chain, tip_hash, tip_sequence, Chain-append, latest-Chain, tip_hash-filled,
}

-- The rows of the table, in the order of their insertion, form a chain from the genesis hash.
abbrev pub IsChained : Externals → Tables → Type 0
IsChained x t = Chain x genesis 0 t.events

-- The event is completed behind `previous`, and nothing that it says changes.
abbrev Completed : Externals → Option AuditEvent → AuditEvent → AuditEvent → Type 0
Completed x previous event made =
    (made.sequence ≡ next_sequence previous)
    × (made.previous_hash ≡ previous_hash previous)
    × (made.hash_algorithm ≡ sha256)
    × (made.occurred_at ≡ event.occurred_at)
    × (compute_audit_event_hash x made ≡ ok made.event_hash)
    × ((encoded : String) × (x.sha256_hex encoded ≡ made.event_hash))

module _ (x : Externals) (event : AuditEvent) (previous : Option AuditEvent) where
  abbrev linked : AuditEvent
  linked = record event {
    sequence = next_sequence previous;
    hash_algorithm = sha256;
    previous_hash = previous_hash previous;
  }

  completed :
      (made : AuditEvent) (r : Result String)
      → x.marshal (payload x linked) ≡ r
      → with_hash x linked (digest x r) ≡ ok made
      → Completed x previous event made
  unfolding with_hash digest compute_audit_event_hash payload
  completed made (ok encoded) e k =
      let same : record linked { event_hash = x.sha256_hex encoded } ≡ made = ground arith in
      rw (← same) (refl, refl, refl, refl, ap (digest x) e, (encoded, refl))
  completed made (err error) e k = cc

  prepare-ok :
      (made : AuditEvent)
      → prepare x event previous (next_sequence previous) ≡ ok made
      → Completed x previous event made
  unfolding prepare compute_audit_event_hash
  prepare-ok made h = completed made (x.marshal (payload x linked)) refl h

create-ok :
    (stored_time : ℕ → ℕ) (e : AuditEvent) (d : Db Tables) (u : Unit {0})
    → (create stored_time e d).0 ≡ ok u
    → (create stored_time e d).1.tables.events
      ≡ d.tables.events ++ record e { occurred_at = stored_time e.occurred_at } ∷ []
unfolding create
create-ok stored_time e d u h = let k = statement-ok _ d u h in ground arith

module _ (stored_time : ℕ → ℕ) (f : Option AuditEvent → ℕ → Result AuditEvent) (d : Db Tables) where
  append_hash_chained-ok :
      (made : AuditEvent)
      → (append_hash_chained stored_time f d).0 ≡ ok made
      → (f (latest d.tables.events) (next_sequence (latest d.tables.events)) ≡ ok made)
        × ((append_hash_chained stored_time f d).1.tables.events
            ≡ d.tables.events ++ record made { occurred_at = stored_time made.occurred_at } ∷ [])
  unfolding append_hash_chained
  append_hash_chained-ok made h =
      let look : Exec Tables (Option AuditEvent) = select (λ t. ok (latest t.events)) in
      let write : AuditEvent → Exec Tables AuditEvent = λ e. create stored_time e >>= λ _. pure e in
      let rest : Option AuditEvent → Exec Tables AuditEvent =
        λ p. lift (f p (next_sequence p)) >>= write in
      let (inner, same) = transaction-ok (look >>= rest) d made h in
      let (p, found, k) = >>=-ok look rest (next d) made inner in
      let mid = (look (next d)).1 in
      let kept : mid.tables ≡ d.tables = tables-select (λ t. ok (latest t.events)) (next d) in
      let seen : latest d.tables.events ≡ p = ground (arith, select-ok _ (next d) p found) in
      let (e, made', k') =
        >>=-ok (lift (f p (next_sequence p))) write mid made (subst (λ c. c.0 ≡ ok made) k inner) in
      let (u, created, k'') =
        >>=-ok (create stored_time e) (λ _. pure e) mid made
          (subst (λ c. c.0 ≡ ok made) (k ∙ k') inner) in
      let one : e ≡ made =
        ground (arith, ap (λ c. c.0) k'', subst (λ c. c.0 ≡ ok made) (k ∙ k') inner) in
      (
        rw seen (rw (← one) made'),
        ap (λ t. t.events) same
            ∙ ap (λ c. c.1.tables.events) (k ∙ k' ∙ k'')
            ∙ create-ok stored_time e mid u created
            ∙ ap (λ t. t.events ++ record e { occurred_at = stored_time e.occurred_at } ∷ []) kept
            ∙ ap (λ a. d.tables.events ++ record a { occurred_at = stored_time a.occurred_at } ∷ [])
                one,
      )

  append_hash_chained-err :
      (e : Error)
      → (append_hash_chained stored_time f d).0 ≡ err e
      → (append_hash_chained stored_time f d).1.tables ≡ d.tables
  unfolding append_hash_chained
  append_hash_chained-err e h = transaction-err _ d e h

module _ (x : Externals) (filled : (s : String) → x.sha256_hex s ≢ "") where
  -- The completed event, as it is stored, links to the end of the chain.
  Completed-Linked :
      (event made : AuditEvent) (es : List AuditEvent)
      → x.stored_time event.occurred_at ≡ event.occurred_at
      → ((e : AuditEvent) → latest es ≡ some e → e.event_hash ≢ "")
      → previous_hash (latest es) ≡ tip_hash genesis es
      → next_sequence (latest es) ≡ suc (tip_sequence 0 es)
      → Completed x (latest es) event made
      → Linked x
          (tip_hash genesis es)
          (tip_sequence 0 es)
          (record made { occurred_at = x.stored_time made.occurred_at })
  unfolding previous_hash
  Completed-Linked event made es precise whole hash number (s, p, a, t, c, (encoded, q)) =
      let kept : x.stored_time made.occurred_at ≡ made.occurred_at =
        ap x.stored_time t ∙ precise ∙ sym t in
      rw kept (record {
        numbered = s ∙ number;
        follows = p ∙ hash;
        filled = λ e. filled encoded (q ∙ e);
        anchored = λ e. elim (Option-cases (latest es)) [
          | inl n ↦ ground (arith, eq_iff "GENESIS" "")
          | inr (l, n) ↦ whole l n (ap previous_hash (sym n) ∙ sym p ∙ e)
        ];
        hashed = c;
        by_sha256 = a;
      })

  latest-tip :
      (es : List AuditEvent)
      → Chain x genesis 0 es
      → (previous_hash (latest es) ≡ tip_hash genesis es)
        × (next_sequence (latest es) ≡ suc (tip_sequence 0 es))
        × ((e : AuditEvent) → latest es ≡ some e → e.event_hash ≢ "")
  unfolding previous_hash next_sequence latest
  latest-tip [] c = (refl, refl, λ e q. cc)
  latest-tip (e ∷ es) c =
      let (l, found, hash, number, above) = latest-Chain x genesis 0 e es c in
      (
        ap previous_hash found ∙ hash,
        ap next_sequence found ∙ ap suc number,
        λ a q z.
            let one : ◌≡◌ {A = Option AuditEvent} (some l) (some a) = sym found ∙ q in
            let same : l ≡ a = ground arith in
            tip_hash-filled x genesis 0 e es c (sym hash ∙ ap (λ r. r.event_hash) same ∙ z),
      )

  appended :
      (event : AuditEvent) (d : Db Tables) (r : Result AuditEvent)
      → x.stored_time event.occurred_at ≡ event.occurred_at
      → IsChained x d.tables
      → (append_hash_chained x.stored_time (prepare x event) d).0 ≡ r
      → IsChained x (append_hash_chained x.stored_time (prepare x event) d).1.tables
  appended event d (err e) precise c h =
      rw (append_hash_chained-err x.stored_time (prepare x event) d e h) c
  appended event d (ok made) precise c h =
      let (prepared, written) = append_hash_chained-ok x.stored_time (prepare x event) d made h in
      let (hash, number, whole) = latest-tip d.tables.events c in
      rw written (
        Chain-append x genesis 0 d.tables.events _ c (
          Completed-Linked event made d.tables.events precise whole hash number
            (prepare-ok x event (latest d.tables.events) made prepared)))

  -- The rows stay a chain, through a call that records an event and through one that fails, where
  -- SHA-256 gives no empty text and the timestamp column keeps the time of the event exactly.
  pub record_event-IsChained :
      (id now : ℕ) (input : RecordAuditEventInput) (d : Db Tables)
      → x.stored_time now ≡ now
      → IsChained x d.tables
      → IsChained x (record_event x id now input d).1.tables
  unfolding record_event new_event
  record_event-IsChained id now input d precise c =
      elim (Bool-cases (trim_space input.action == "" || trim_space input.resource_type == "")) [
        | inl e ↦ rw (e, record_event) c
        | inr e ↦
            rw (e, record_event)
              (mapped (append_hash_chained x.stored_time (prepare x (new_event id now input)) d)
                (appended (new_event id now input) d _ precise c refl))
      ]
    where
      mapped :
          (c : Result AuditEvent × Db Tables)
          → IsChained x c.1.tables
          → IsChained x (continue (λ e. pure (some e)) c.0 c.1).1.tables
      mapped (ok a, d') k = k
      mapped (err e, d') k = k

-- A call of Record, with the identifier and the time that it takes from outside.
pub record Recording : Type 0 where
  pub id : ℕ
  pub now : ℕ
  pub input : RecordAuditEventInput

unfoldable pub record_events : Externals → List Recording → Db Tables → Db Tables
record_events x [] d = d
record_events x (c ∷ cs) d = record_events x cs (record_event x c.id c.now c.input d).1

pub record_events-IsChained :
    (x : Externals)
    → ((s : String) → x.sha256_hex s ≢ "")
    → (cs : List Recording) (d : Db Tables) → All (λ c. x.stored_time c.now ≡ c.now) cs
    → IsChained x d.tables
    → IsChained x (record_events x cs d).tables
unfolding record_events
record_events-IsChained x filled [] d precise c = c
record_events-IsChained x filled (r ∷ rs) d precise c =
    record_events-IsChained x filled rs (record_event x r.id r.now r.input d).1 precise.1
      (record_event-IsChained x filled r.id r.now r.input d precise.0 c)
