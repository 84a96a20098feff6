-- ===== src/Sync/Retries.antt =====
-- Retries of RecordEnvelope (internal/service/sync.go): the client's event id makes a call
-- idempotent, also when the database refuses statements in between.
use agent_os_backend.Prelude.{
  ℕ, String, false, ◌≡◌, ◌≢◌, refl, ap, sym, subst, ◌∙◌, List, arith, In, ◌!=◌, string_eq, nat_eq,
  Bool-cases, eq_iff, nat_beq_iff, inl, inr,
}
use agent_os_backend.Errors.{Result, ok, err}
use agent_os_backend.Db.{Db, Exec, ◌>>=◌, pure, wrapping, lift}
use agent_os_backend.Db.Laws.{>>=-ok, after-bind, wrap-ok, wrap-err}
use agent_os_backend.Table.Finding.{any-false}
use agent_os_backend.Table.Members.{All-In}
use agent_os_backend.Sync.Contract.{build_sync_event_type}
use agent_os_backend.Sync.Rows.{SyncEvent, Tables}
use agent_os_backend.Sync.Repo
use agent_os_backend.Sync.Repo.{create_event, conflicts, get_next_sequence}
use agent_os_backend.Sync.Service.{
  Fresh, SyncEnvelope, new_event, append_event, record_typed, record_envelope, replay_or_append,
  validate_idempotent_replay,
}
use agent_os_backend.Sync.Numbers.{IsSequenced, get_next_sequence-ok}
use agent_os_backend.Sync.Sequences.{create_event-ok, get_next_sequence-err, create_event-err}
use agent_os_backend.Sync.Recording.{lookup-tables, lookup-ok}

-- The envelope's event is in the log.
abbrev pub Logged : SyncEnvelope → List SyncEvent → SyncEvent → Type 0
Logged envelope events e =
    In e events × (e.user_id ≡ envelope.user_id) × (e.client_event_id ≡ envelope.client_event_id)

blocked :
    (e a : SyncEvent)
    → a.user_id ≡ e.user_id
    → a.client_event_id ≡ e.client_event_id
    → e.client_event_id ≢ ""
    → conflicts e a ≢ false
unfolding conflicts
blocked e a u c n h = ground (
  arith,
  nat_beq_iff a.user_id e.user_id,
  eq_iff a.client_event_id e.client_event_id,
  eq_iff e.client_event_id "",
)

module _ (fresh : Fresh) (envelope : SyncEnvelope) (event_type : String) (d : Db Tables)
    (e : SyncEvent) (there : Logged envelope d.tables.events e)
    (filled : envelope.client_event_id ≢ "") where
  -- With the event in the log, CreateEvent runs into the unique index.
  insert_blocked :
      (n : ℕ) (c : Db Tables) (u : Unit {0})
      → c.tables.events ≡ d.tables.events
      → (create_event (new_event fresh envelope event_type n) c).0 ≢ ok u
  unfolding new_event
  insert_blocked n c u same h =
      let (clear, _) = create_event-ok (new_event fresh envelope event_type n) c u h in
      let (stored, mine, sent) = there in
      let k =
        All-In (λ y. conflicts (new_event fresh envelope event_type n) y ≡ false) c.tables.events e
          (any-false _ c.tables.events clear) (subst (In e) (sym same) stored) in
      blocked (new_event fresh envelope event_type n) e mine sent filled k

  reserve_events :
      (get_next_sequence envelope.user_id fresh.reserved_at d).1.tables.events ≡ d.tables.events
  reserve_events = go (get_next_sequence envelope.user_id fresh.reserved_at d).0 refl
    where
      go :
          (r : Result ℕ)
          → (get_next_sequence envelope.user_id fresh.reserved_at d).0 ≡ r
          → (get_next_sequence envelope.user_id fresh.reserved_at d).1.tables.events
            ≡ d.tables.events
      go (ok n) h =
          ap (λ t. t.events) (get_next_sequence-ok envelope.user_id fresh.reserved_at d n h).6
      go (err x) h =
          ap (λ t. t.events) (get_next_sequence-err envelope.user_id fresh.reserved_at d x h)

  abbrev reserve : Exec Tables ℕ
  reserve = wrapping "get next sequence" (get_next_sequence envelope.user_id fresh.reserved_at)

  abbrev create : ℕ → Exec Tables Unit
  create n = wrapping "create sync event" (create_event (new_event fresh envelope event_type n))

  abbrev insert : ℕ → Exec Tables SyncEvent
  insert n = create n >>= λ _. pure (new_event fresh envelope event_type n)

  append_blocked : (a : SyncEvent) → (append_event fresh envelope event_type d).0 ≢ ok a
  unfolding append_event
  append_blocked a h =
      let (n, reserved, k) = >>=-ok reserve insert d a h in
      let mid = (reserve d).1 in
      let (u, created, _) =
        >>=-ok (create n) (λ _. pure (new_event fresh envelope event_type n)) mid a
          (subst (λ c. c.0 ≡ ok a) k h) in
      insert_blocked n mid u reserve_events (wrap-ok "create sync event" _ u created)

  append_blocked-events :
      (append_event fresh envelope event_type d).1.tables.events ≡ d.tables.events
  unfolding append_event
  append_blocked-events =
      after-bind (λ s. s.tables.events ≡ d.tables.events) reserve insert d (λ x w. reserve_events)
        (λ n w.
          let mid = (reserve d).1 in
          after-bind (λ s. s.tables.events ≡ d.tables.events) (create n)
            (λ _. pure (new_event fresh envelope event_type n)) mid
            (λ x w'.
              let (y, q) = wrap-err "create sync event" _ x w' in
              ap (λ t. t.events) (create_event-err (new_event fresh envelope event_type n) mid y q)
              ∙ reserve_events)
            (λ u w'.
              absurd (insert_blocked n mid u reserve_events (wrap-ok "create sync event" _ u w'))))

-- The outcome of a call whose event is in the log already: nothing is added, and a result is that
-- event.
abbrev pub Replays : SyncEvent → Db Tables → Result SyncEvent × Db Tables → Type 0
Replays e d c = (c.1.tables.events ≡ d.tables.events) × ((a : SyncEvent) → c.0 ≡ ok a → a ≡ e)

module _ (fresh : Fresh) (envelope : SyncEnvelope) (event_type : String) (d : Db Tables)
    (inv : IsSequenced d.tables) (e : SyncEvent) (there : Logged envelope d.tables.events e)
    (filled : envelope.client_event_id ≢ "") where
  validate-ok : (x a : SyncEvent) → validate_idempotent_replay x envelope ≡ ok a → a ≡ x
  unfolding validate_idempotent_replay
  validate-ok x a h = ground arith

  abbrev lookup : Exec Tables SyncEvent
  lookup = Repo.get_event_by_client_event_id envelope.user_id envelope.client_event_id

  replays :
      (found : Result SyncEvent)
      → (lookup d).0 ≡ found
      → Replays e d (replay_or_append fresh envelope event_type found (lookup d).1)
  unfolding replay_or_append
  replays (ok x) h =
      let (stored, mine, sent) = lookup-ok envelope.user_id envelope.client_event_id d x h in
      let kept = lookup-tables envelope.user_id envelope.client_event_id d in
      let one : x ≡ e =
        inv.by_client x e stored there.0 (mine ∙ sym there.1) (sent ∙ sym there.2)
          (λ z. filled (sym sent ∙ z)) in
      (ap (λ t. t.events) kept, λ a w. validate-ok x a w ∙ one)
  replays (err x) h =
      let kept = ap (λ t. t.events) (lookup-tables envelope.user_id envelope.client_event_id d) in
      let there' : Logged envelope (lookup d).1.tables.events e =
        (subst (In e) (sym kept) there.0, there.1, there.2) in
      (
        append_blocked-events fresh envelope event_type (lookup d).1 e there' filled ∙ kept,
        λ a w. absurd (append_blocked fresh envelope event_type (lookup d).1 e there' filled a w),
      )

  record_typed-Replays : Replays e d (record_typed fresh envelope event_type d)
  unfolding record_typed
  record_typed-Replays = elim (Bool-cases (envelope.client_event_id != "")) [
    | inl t ↦ rw (t, record_typed) (replays (lookup d).0 refl)
    | inr t ↦ absurd (filled ((eq_iff _ _).0 (ground arith)))
  ]

-- An event that is in the log under the envelope's client event id is never recorded again: the
-- call adds no event, and if it returns one, it is the event of the log.
pub record_envelope-Replays :
    (fresh : Fresh) (envelope : SyncEnvelope) (d : Db Tables) (e : SyncEvent)
    → IsSequenced d.tables
    → Logged envelope d.tables.events e
    → envelope.client_event_id ≢ ""
    → Replays e d (record_envelope fresh envelope d)
unfolding record_envelope
record_envelope-Replays fresh envelope d e inv there filled =
    go (build_sync_event_type envelope.object_type envelope.operation)
  where
    go : (r : Result String) → Replays e d ((lift r >>= record_typed fresh envelope) d)
    go (ok event_type) = record_typed-Replays fresh envelope event_type d inv e there filled
    go (err x) = (refl, λ a w. cc)
