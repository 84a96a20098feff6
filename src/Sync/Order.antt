-- ===== src/Sync/Order.antt =====
-- What RecordEnvelope returns and what a pull returns (internal/service/sync.go): the log of a
-- user in the order of its recording, without gaps between pulls.
use agent_os_backend.Prelude.{
  ◌<◌, String, ◌≡◌, ◌⊎◌, refl, ap, subst, ◌∙◌, List, [], ◌∷◌, ◌++◌, arith, In, ◌!=◌, string_eq,
  nat_eq, Bool-cases, eq_iff, inl, inr,
}
use agent_os_backend.Errors.{Result, ok, err}
use agent_os_backend.Db.{Db, ◌>>=◌, lift}
use agent_os_backend.Sync.Contract.{build_sync_event_type}
use agent_os_backend.Sync.Rows.{SyncEvent, Tables}
use agent_os_backend.Sync.Repo
use agent_os_backend.Sync.Service.{
  Fresh, SyncEnvelope, new_event, append_event, record_typed, record_envelope, replay_or_append,
  validate_idempotent_replay,
}
use agent_os_backend.Sync.Numbers.{IsSequenced}
use agent_os_backend.Sync.Recording.{append_event-ok, lookup-tables, lookup-ok}

-- The event says what the envelope says.
abbrev pub Carries : SyncEnvelope → SyncEvent → Type 0
Carries envelope e =
    (e.user_id ≡ envelope.user_id)
    × (e.client_event_id ≡ envelope.client_event_id)
    × (e.object_type ≡ envelope.object_type)
    × (e.object_id ≡ envelope.object_id)
    × (e.operation ≡ envelope.operation)
    × (e.source_device_id ≡ envelope.source_device_id)

-- The event is in the log already, or it is added with a number above all those of its user.
abbrev pub Recorded : List SyncEvent → List SyncEvent → SyncEvent → Type 0
Recorded before after e =
    (In e before × (after ≡ before))
    ⊎ ((after ≡ before ++ e ∷ [])
        × ((a : SyncEvent) → In a before → a.user_id ≡ e.user_id → a.sequence < e.sequence))

validate-ok :
    (x a : SyncEvent) (envelope : SyncEnvelope)
    → validate_idempotent_replay x envelope ≡ ok a
    → (a ≡ x)
      × (x.object_type ≡ envelope.object_type)
      × (x.object_id ≡ envelope.object_id)
      × (x.operation ≡ envelope.operation)
      × (x.source_device_id ≡ envelope.source_device_id)
unfolding validate_idempotent_replay
validate-ok x a envelope h = ground (
  arith,
  eq_iff x.object_type envelope.object_type,
  eq_iff x.object_id envelope.object_id,
  eq_iff x.operation envelope.operation,
  eq_iff x.source_device_id envelope.source_device_id,
)

module _ (fresh : Fresh) (envelope : SyncEnvelope) (event_type : String) (e : SyncEvent) where
  appended :
      (d : Db Tables)
      → IsSequenced d.tables
      → (append_event fresh envelope event_type d).0 ≡ ok e
      → Carries envelope e
        × Recorded d.tables.events (append_event fresh envelope event_type d).1.tables.events e
  unfolding new_event
  appended d inv h =
      let (n, made, added, above) = append_event-ok fresh envelope event_type d inv e h in
      (
        (
          ap (λ s. s.user_id) made,
          ap (λ s. s.client_event_id) made,
          ap (λ s. s.object_type) made,
          ap (λ s. s.object_id) made,
          ap (λ s. s.operation) made,
          ap (λ s. s.source_device_id) made,
        ),
        inr (
          added,
          λ a i u.
              let k = above a i (u ∙ ap (λ s. s.user_id) made) in
              omega (arith, k, ap (λ s. s.sequence) made),
        ),
      )

  replayed :
      (d : Db Tables) (found : Result SyncEvent) (d' : Db Tables)
      → IsSequenced d.tables
      → d'.tables ≡ d.tables
      → ((x : SyncEvent)
          → found ≡ ok x
          → In x d.tables.events
            × (x.user_id ≡ envelope.user_id)
            × (x.client_event_id ≡ envelope.client_event_id))
      → (replay_or_append fresh envelope event_type found d').0 ≡ ok e
      → Carries envelope e
        × Recorded d.tables.events
            (replay_or_append fresh envelope event_type found d').1.tables.events
            e
  unfolding replay_or_append
  replayed d (ok x) d' inv same hit h =
      let (one, o, i, p, s) = validate-ok x e envelope h in
      let (stored, mine, sent) = hit x refl in
      (rw one (mine, sent, o, i, p, s), inl (rw one stored, ap (λ t. t.events) same))
  replayed d (err x) d' inv same hit h =
      let (c, r) = appended d' (rw same inv) h in
      (
        c,
        subst (λ t. Recorded t.events (append_event fresh envelope event_type d').1.tables.events e)
            same r,
      )

  typed :
      (d : Db Tables)
      → IsSequenced d.tables
      → (record_typed fresh envelope event_type d).0 ≡ ok e
      → Carries envelope e
        × Recorded d.tables.events (record_typed fresh envelope event_type d).1.tables.events e
  unfolding record_typed
  typed d inv h = elim (Bool-cases (envelope.client_event_id != "")) [
    | inl t ↦
        rw (t, record_typed)
          (replayed d
            (Repo.get_event_by_client_event_id envelope.user_id envelope.client_event_id d).0
            (Repo.get_event_by_client_event_id envelope.user_id envelope.client_event_id d).1 inv
            (lookup-tables envelope.user_id envelope.client_event_id d)
            (λ x. lookup-ok envelope.user_id envelope.client_event_id d x)
            (rw (t, record_typed) at h))
    | inr t ↦ rw (t, record_typed) (appended d inv (rw (t, record_typed) at h))
  ]

-- An event that RecordEnvelope returns carries the user, the client event id, the object, the
-- operation and the device of the envelope. Either it was in the log, and the log is unchanged; or
-- it is the one event added, and its sequence is above that of every earlier event of the user.
pub record_envelope-Recorded :
    (fresh : Fresh) (envelope : SyncEnvelope) (d : Db Tables) (e : SyncEvent)
    → IsSequenced d.tables
    → (record_envelope fresh envelope d).0 ≡ ok e
    → Carries envelope e
      × Recorded d.tables.events (record_envelope fresh envelope d).1.tables.events e
unfolding record_envelope
record_envelope-Recorded fresh envelope d e inv h =
    go (build_sync_event_type envelope.object_type envelope.operation) h
  where
    go :
        (r : Result String)
        → ((lift r >>= record_typed fresh envelope) d).0 ≡ ok e
        → Carries envelope e
          × Recorded d.tables.events ((lift r >>= record_typed fresh envelope) d).1.tables.events e
    go (ok event_type) k = typed fresh envelope event_type e d inv k
    go (err x) k = cc
