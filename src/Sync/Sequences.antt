-- ===== src/Sync/Sequences.antt =====
-- The sequence of a user's sync events (GetNextSequence and CreateEvent of
-- internal/repository/sync_repo.go): numbers are given out once, in the order of the calls.
use agent_os_backend.Prelude.{
  ℕ, ◌+◌, ◌<◌, false, ◌≡◌, ◌≢◌, ap, sym, subst, ◌∙◌, List, [], ◌∷◌, ◌++◌, arith, In, ◌==◌,
  string_eq, nat_eq, Bool-cases, eq_iff, nat_beq_iff, inl, inr,
}
use agent_os_backend.Errors.{Error, ok, err}
use agent_os_backend.Db.{Db}
use agent_os_backend.Db.Laws.{statement-ok, transaction-err, statement-err}
use agent_os_backend.Table.{any}
use agent_os_backend.Table.Finding.{any-false}
use agent_os_backend.Table.Members.{
  All-In, append-In, In-append_left, In-update_ne, In-update_map, update_map-In,
}
use agent_os_backend.Sync.Rows.{SyncEvent, SyncSequence, Tables}
use agent_os_backend.Sync.Repo.{get_next_sequence, create_event, conflicts}
use agent_os_backend.Sync.Numbers.{IsSequenced, seed, Seeded, counted, with_counters, Reserved}

-- The counter of the base stands below the number that it gives out.
Seeded-counter :
    (user_id now : ℕ) (before base : List SyncSequence)
    → Seeded user_id now before base
    → ((a b : SyncSequence) → In a before → In b before → a.user_id ≡ b.user_id → a ≡ b)
    → (a b : SyncSequence) → In a base
    → In b base
    → a.user_id ≡ b.user_id
    → a ≡ b
Seeded-counter user_id now before base (inl e) one a b ha hb s =
    one a b (subst (In a) e ha) (subst (In b) e hb) s
Seeded-counter user_id now before base (inr (none_yet, e)) one a b ha hb s =
    elim (append-In before (seed user_id now) a (subst (In a) e ha)) [
      | inl ia ↦ elim (append-In before (seed user_id now) b (subst (In b) e hb)) [
        | inl ib ↦ one a b ia ib s
        | inr eb ↦ absurd (none_yet a ia (s ∙ ap (λ c. c.user_id) eb))
      ]
      | inr ea ↦ elim (append-In before (seed user_id now) b (subst (In b) e hb)) [
        | inl ib ↦ absurd (none_yet b ib (sym s ∙ ap (λ c. c.user_id) ea))
        | inr eb ↦ ea ∙ sym eb
      ]
    ]

Seeded-In :
    (user_id now : ℕ) (before base : List SyncSequence) (s : SyncSequence)
    → Seeded user_id now before base
    → In s before
    → In s base
Seeded-In user_id now before base s (inl e) h = rw e h
Seeded-In user_id now before base s (inr (_, e)) h =
    rw e (In-append_left before (seed user_id now ∷ []) s h)

module _ (user_id now n : ℕ) (t t' : Tables) (inv : IsSequenced t)
    (r : Reserved user_id now n t t') where
  abbrev base : List SyncSequence
  base = r.0

  base_unique : (a b : SyncSequence) → In a base → In b base → a.user_id ≡ b.user_id → a ≡ b
  base_unique = Seeded-counter user_id now t.sequences base r.2 inv.one_counter

  -- the user's counter after the step
  abbrev counter : SyncSequence
  counter = record r.1 { next_sequence = n + 1; updated_at = now }

  counter-In : In counter t'.sequences
  counter-In = rw (r.6) (
      In-update_map (λ a. a.user_id == user_id)
        (λ a. record a { next_sequence = n + 1; updated_at = now }) base r.1 r.3
        ((nat_beq_iff _ _).1 r.4))

  pub Reserved-above : (e : SyncEvent) → In e t.events → e.user_id ≡ user_id → e.sequence < n
  Reserved-above e h u =
      let (s, stored, owner, below) = inv.numbered e h in
      let same : s ≡ r.1 =
        base_unique s r.1 (Seeded-In user_id now t.sequences base s r.2 stored) r.3
          (owner ∙ u ∙ sym r.4) in
      let k = ap (λ c. c.next_sequence) same in omega (arith, k, r.5)

  pub Reserved-counter :
      (s : SyncSequence) × In s t'.sequences × (s.user_id ≡ user_id) × (n < s.next_sequence)
  Reserved-counter = (counter, counter-In, r.4, omega arith)

  renumbered :
      (e : SyncEvent)
      → In e t.events
      → (s : SyncSequence) × In s t'.sequences
        × (s.user_id ≡ e.user_id)
        × (e.sequence < s.next_sequence)
  renumbered e h = elim (Bool-cases (e.user_id == user_id)) [
    | inl mine ↦
        let u = (nat_beq_iff e.user_id user_id).0 mine in
        let k = Reserved-above e h u in (counter, counter-In, r.4 ∙ sym u, omega arith)
    | inr other ↦
        let (s, stored, owner, below) = inv.numbered e h in
        (
          s,
          rw (r.6) (
              In-update_ne (λ a. a.user_id == user_id)
                (λ a. record a { next_sequence = n + 1; updated_at = now }) base s
                (Seeded-In user_id now t.sequences base s r.2 stored) (rw owner other)),
          owner,
          below,
        )
  ]

  same_events : t'.events ≡ t.events
  same_events = ap (λ s. s.events) r.6

  recounted :
      (a b : SyncSequence)
      → In a (counted user_id (n + 1) now (with_counters t base)).sequences
      → In b (counted user_id (n + 1) now (with_counters t base)).sequences
      → a.user_id ≡ b.user_id
      → a ≡ b
  recounted a b ha hb s =
      let f = λ (c : SyncSequence). record c { next_sequence = n + 1; updated_at = now } in
      let (x, ix, cx) = update_map-In (λ c. c.user_id == user_id) f base a ha in
      let (y, iy, cy) = update_map-In (λ c. c.user_id == user_id) f base b hb in
      let owners : x.user_id ≡ y.user_id = ground arith in
      let k : x ≡ y = base_unique x y ix iy owners in
      elim cx [
        | inl (p, e) ↦ elim cy [
          | inl (q, g) ↦ e ∙ ap f k ∙ sym g
          | inr (q, g) ↦ absurd (ground arith)
        ]
        | inr (p, e) ↦ elim cy [ inl (q, g) ↦ absurd (ground arith) | inr (q, g) ↦ e ∙ k ∙ sym g ]
      ]

  pub Reserved-IsSequenced : IsSequenced t'
  Reserved-IsSequenced = record {
    numbered = λ e h. renumbered e (subst (In e) same_events h);
    one_counter = λ a b ha hb.
        recounted a b (subst (λ s. In a s.sequences) r.6 ha) (subst (λ s. In b s.sequences) r.6 hb);
    distinct =
        λ a b ha hb. inv.distinct a b (subst (In a) same_events ha) (subst (In b) same_events hb);
    by_client =
        λ a b ha hb. inv.by_client a b (subst (In a) same_events ha) (subst (In b) same_events hb);
  }

conflicts-client :
    (e a : SyncEvent)
    → conflicts e a ≡ false
    → a.user_id ≡ e.user_id
    → a.client_event_id ≡ e.client_event_id
    → e.client_event_id ≢ ""
    → ⊥
unfolding conflicts
conflicts-client e a h u c n = ground (
  arith,
  nat_beq_iff a.user_id e.user_id,
  eq_iff a.client_event_id e.client_event_id,
  eq_iff e.client_event_id "",
)

-- A new event with a number that was given out, above those of all events of the user.
pub append-IsSequenced :
    (e : SyncEvent) (t : Tables)
    → IsSequenced t
    → ((a : SyncEvent) → In a t.events → a.user_id ≡ e.user_id → a.sequence < e.sequence)
    → (s : SyncSequence) × In s t.sequences
      × (s.user_id ≡ e.user_id)
      × (e.sequence < s.next_sequence)
    → any (conflicts e) t.events ≡ false
    → IsSequenced (record t { events = t.events ++ e ∷ [] })
append-IsSequenced e t inv above c clear = record {
  numbered = λ a h. elim (append-In t.events e a h) [ inl i ↦ inv.numbered a i | inr q ↦ rw q c ];
  one_counter = inv.one_counter;
  distinct = λ a b ha hb s n. elim (append-In t.events e a ha) [
    | inl ia ↦ elim (append-In t.events e b hb) [
      | inl ib ↦ inv.distinct a b ia ib s n
      | inr qb ↦
          let k = above a ia (s ∙ ap (λ x. x.user_id) qb) in
          absurd (omega (arith, k, n, ap (λ x. x.sequence) qb))
    ]
    | inr qa ↦ elim (append-In t.events e b hb) [
      | inl ib ↦
          let k = above b ib (sym s ∙ ap (λ x. x.user_id) qa) in
          absurd (omega (arith, k, n, ap (λ x. x.sequence) qa))
      | inr qb ↦ qa ∙ sym qb
    ]
  ];
  by_client = λ a b ha hb s n filled.
      let apart = λ (x : SyncEvent) (i : In x t.events).
        All-In (λ y. conflicts e y ≡ false) t.events x (any-false (conflicts e) t.events clear) i in
      elim (append-In t.events e a ha) [
        | inl ia ↦ elim (append-In t.events e b hb) [
          | inl ib ↦ inv.by_client a b ia ib s n filled
          | inr qb ↦ absurd (
              conflicts-client e a (apart a ia) (s ∙ ap (λ x. x.user_id) qb)
                (n ∙ ap (λ x. x.client_event_id) qb)
                (λ z. filled (n ∙ ap (λ x. x.client_event_id) qb ∙ z)))
        ]
        | inr qa ↦ elim (append-In t.events e b hb) [
          | inl ib ↦ absurd (
              conflicts-client e b (apart b ib) (sym s ∙ ap (λ x. x.user_id) qa)
                (sym n ∙ ap (λ x. x.client_event_id) qa)
                (λ z. filled (ap (λ x. x.client_event_id) qa ∙ z)))
          | inr qb ↦ qa ∙ sym qb
        ]
      ];
}

pub create_event-ok :
    (e : SyncEvent) (d : Db Tables) (u : Unit {0})
    → (create_event e d).0 ≡ ok u
    → (any (conflicts e) d.tables.events ≡ false)
      × ((create_event e d).1.tables ≡ record d.tables { events = d.tables.events ++ e ∷ [] })
unfolding create_event
create_event-ok e d u h = let k = statement-ok _ d u h in ground arith

pub create_event-err :
    (e : SyncEvent) (d : Db Tables) (x : Error)
    → (create_event e d).0 ≡ err x
    → (create_event e d).1.tables ≡ d.tables
unfolding create_event
create_event-err e d x h = statement-err _ d x h

pub get_next_sequence-err :
    (user_id now : ℕ) (d : Db Tables) (x : Error)
    → (get_next_sequence user_id now d).0 ≡ err x
    → (get_next_sequence user_id now d).1.tables ≡ d.tables
unfolding get_next_sequence
get_next_sequence-err user_id now d x h = transaction-err _ d x h
