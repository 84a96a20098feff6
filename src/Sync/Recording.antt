-- ===== src/Sync/Recording.antt =====
-- RecordEnvelope (internal/service/sync.go): the numbering of the log survives every call, and a
-- client's retry does not record an event again.
use agent_os_backend.Prelude.{
  ℕ, ◌<◌, String, ◌≡◌, ap, sym, subst, ◌∙◌, List, [], ◌∷◌, ◌++◌, arith, In, ◌==◌, ◌!=◌, string_eq,
  nat_eq, Bool-cases, eq_iff, nat_beq_iff, inl, inr, and-eq-true,
}
use agent_os_backend.Errors.{Result, ok, err, record_not_found}
use agent_os_backend.Db.{Db, Exec, ◌>>=◌, pure, wrapping, lift, select}
use agent_os_backend.Db.Laws.{
  >>=-ok, tables-select, after-bind, wrap-ok, wrap-err, select-ok, raise-ok,
}
use agent_os_backend.Sync.Rows.{SyncEvent, Tables}
use agent_os_backend.Sync.Repo
use agent_os_backend.Sync.Repo.{get_next_sequence, create_event, conflicts}
use agent_os_backend.Sync.Service.{
  Fresh, SyncEnvelope, new_event, append_event, record_typed, record_envelope, replay_or_append,
}
use agent_os_backend.Sync.Numbers.{IsSequenced, get_next_sequence-ok}
use agent_os_backend.Sync.Sequences.{
  Reserved-IsSequenced, Reserved-above, Reserved-counter, append-IsSequenced, create_event-ok,
  get_next_sequence-err, create_event-err,
}
use agent_os_backend.Sync.Contract.{build_sync_event_type}
use agent_os_backend.Table.{first}
use agent_os_backend.Table.Finding.{first-ok}

module _ (fresh : Fresh) (envelope : SyncEnvelope) (event_type : String) (d : Db Tables)
    (inv : IsSequenced d.tables) where
  abbrev reserve : Exec Tables ℕ
  reserve = get_next_sequence envelope.user_id fresh.reserved_at

  abbrev event : ℕ → SyncEvent
  event n = new_event fresh envelope event_type n

  abbrev insert : ℕ → Exec Tables SyncEvent
  insert n = wrapping "create sync event" (create_event (event n)) >>= λ _. pure (event n)

  insert-IsSequenced :
      (n : ℕ) → (reserve d).0 ≡ ok n → IsSequenced (insert n (reserve d).1).1.tables
  unfolding new_event
  insert-IsSequenced n h =
      let given = get_next_sequence-ok envelope.user_id fresh.reserved_at d n h in
      let mid = (reserve d).1 in
      let kept =
        Reserved-IsSequenced envelope.user_id fresh.reserved_at n d.tables mid.tables inv given in
      after-bind (λ s. IsSequenced s.tables) (wrapping "create sync event" (create_event (event n)))
        (λ _. pure (event n)) mid
        (λ e w.
          let (x, q) = wrap-err "create sync event" _ e w in
          rw (create_event-err (event n) mid x q) kept)
        (λ u w.
          let (clear, written) =
            create_event-ok (event n) mid u (wrap-ok "create sync event" _ u w) in
          rw written (
            append-IsSequenced (event n) mid.tables kept
              (λ a i s.
                Reserved-above envelope.user_id fresh.reserved_at n d.tables mid.tables inv given a
                  (subst (In a) (ap (λ t. t.events) given.6) i) s)
              (Reserved-counter envelope.user_id fresh.reserved_at n d.tables mid.tables inv given)
              clear))

  append_event-IsSequenced : IsSequenced (append_event fresh envelope event_type d).1.tables
  unfolding append_event
  append_event-IsSequenced =
      after-bind (λ s. IsSequenced s.tables) (wrapping "get next sequence" reserve) insert d
        (λ e w.
          let (x, q) = wrap-err "get next sequence" _ e w in
          rw (get_next_sequence-err envelope.user_id fresh.reserved_at d x q) inv)
        (λ n w. insert-IsSequenced n (wrap-ok "get next sequence" _ n w))

  -- What an appended event is, and what it adds.
  abbrev pub Appended : SyncEvent → List SyncEvent → Type 0
  Appended e after =
      (n : ℕ) × (e ≡ event n)
      × (after ≡ d.tables.events ++ e ∷ [])
      × ((a : SyncEvent) → In a d.tables.events → a.user_id ≡ envelope.user_id → a.sequence < n)

  pub append_event-ok :
      (e : SyncEvent)
      → (append_event fresh envelope event_type d).0 ≡ ok e
      → Appended e (append_event fresh envelope event_type d).1.tables.events
  unfolding append_event
  append_event-ok e h =
      let (n, reserved, k) = >>=-ok (wrapping "get next sequence" reserve) insert d e h in
      let given =
        get_next_sequence-ok envelope.user_id fresh.reserved_at d n
          (wrap-ok "get next sequence" _ n reserved) in
      let mid = (reserve d).1 in
      let (u, created, k') =
        >>=-ok (wrapping "create sync event" (create_event (event n))) (λ _. pure (event n)) mid e
          (subst (λ c. c.0 ≡ ok e) k h) in
      let (_, written) =
        create_event-ok (event n) mid u (wrap-ok "create sync event" _ u created) in
      let made : event n ≡ e = ground (arith, ap (λ c. c.0) k', subst (λ c. c.0 ≡ ok e) k h) in
      let same : mid.tables.events ≡ d.tables.events = ap (λ t. t.events) given.6 in
      (
        n,
        sym made,
        ap (λ c. c.1.tables.events) (k ∙ k')
            ∙ ap (λ t. t.events) written
            ∙ ap (λ l. l ++ event n ∷ []) same
            ∙ ap (λ x. d.tables.events ++ x ∷ []) made,
        λ a i s.
            Reserved-above envelope.user_id fresh.reserved_at n d.tables mid.tables inv given a i s,
      )

pub lookup-tables :
    (user_id : ℕ) (client_event_id : String) (d : Db Tables)
    → (Repo.get_event_by_client_event_id user_id client_event_id d).1.tables ≡ d.tables
unfolding Repo.get_event_by_client_event_id
lookup-tables user_id client_event_id d = elim (Bool-cases (client_event_id == "")) [
  | inl e ↦ rw e
  | inr e ↦ rw e (tables-select (λ t. first (Repo.sent_as user_id client_event_id) t.events) d)
]

pub lookup-ok :
    (user_id : ℕ) (client_event_id : String) (d : Db Tables) (e : SyncEvent)
    → (Repo.get_event_by_client_event_id user_id client_event_id d).0 ≡ ok e
    → In e d.tables.events × (e.user_id ≡ user_id) × (e.client_event_id ≡ client_event_id)
unfolding Repo.get_event_by_client_event_id Repo.sent_as
lookup-ok user_id client_event_id d e h =
    let (_, k) =
      raise-ok (client_event_id == "") record_not_found
        (select λ t. first (Repo.sent_as user_id client_event_id) t.events) d e h in
    let (stored, hit) =
      first-ok (Repo.sent_as user_id client_event_id) d.tables.events e
        (select-ok _ d e (subst (λ c. c.0 ≡ ok e) k h)) in
    let (u, c) = and-eq-true (e.user_id == user_id) (e.client_event_id == client_event_id) hit in
    (stored, (nat_beq_iff _ _).0 u, (eq_iff _ _).0 c)

module _ (fresh : Fresh) (envelope : SyncEnvelope) where
  replay_or_append-IsSequenced :
      (event_type : String) (found : Result SyncEvent) (d : Db Tables)
      → IsSequenced d.tables
      → IsSequenced (replay_or_append fresh envelope event_type found d).1.tables
  unfolding replay_or_append
  replay_or_append-IsSequenced event_type (ok existing) d inv = inv
  replay_or_append-IsSequenced event_type (err e) d inv =
      append_event-IsSequenced fresh envelope event_type d inv

  record_typed-IsSequenced :
      (event_type : String) (d : Db Tables)
      → IsSequenced d.tables
      → IsSequenced (record_typed fresh envelope event_type d).1.tables
  unfolding record_typed
  record_typed-IsSequenced event_type d inv = elim (Bool-cases (envelope.client_event_id != "")) [
    | inl e ↦
        rw (e, record_typed)
          (replay_or_append-IsSequenced event_type
            (Repo.get_event_by_client_event_id envelope.user_id envelope.client_event_id d).0
            (Repo.get_event_by_client_event_id envelope.user_id envelope.client_event_id d).1
            (rw (lookup-tables envelope.user_id envelope.client_event_id d) inv))
    | inr e ↦ rw (e, record_typed) (append_event-IsSequenced fresh envelope event_type d inv)
  ]

  -- Recording an event keeps the log well numbered: every number is below its user's counter, and
  -- no two events of a user share a number or a client event id. This holds whether the call
  -- returns or fails, at whichever statement.
  pub record_envelope-IsSequenced :
      (d : Db Tables)
      → IsSequenced d.tables
      → IsSequenced (record_envelope fresh envelope d).1.tables
  unfolding record_envelope
  record_envelope-IsSequenced d inv =
      after-bind (λ s. IsSequenced s.tables)
        (lift (build_sync_event_type envelope.object_type envelope.operation))
        (record_typed fresh envelope) d (λ e w. inv)
        (λ event_type w. record_typed-IsSequenced event_type d inv)
