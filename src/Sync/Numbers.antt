-- ===== src/Sync/Numbers.antt =====
-- The number that GetNextSequence (internal/repository/sync_repo.go) gives out, and the counter that it
-- leaves.
use agent_os_backend.Prelude.{
  ℕ, ◌+◌, ◌<◌, ◌≡◌, ◌≢◌, ◌⊎◌, refl, ap, subst, ◌∙◌, List, [], ◌∷◌, ◌++◌, arith, In, ◌==◌, string_eq,
  nat_eq, Bool-cases, nat_beq_iff, inl, inr,
}
use agent_os_backend.Errors.{ok}
use agent_os_backend.Db.{Db, Exec, ◌>>=◌, pure, next, select}
use agent_os_backend.Db.Laws.{>>=-ok, statement-ok, select-ok, tables-select, transaction-ok}
use agent_os_backend.Table.{any, update, first}
use agent_os_backend.Table.Finding.{first-ok, any-false}
use agent_os_backend.Table.Members.{All-In}
use agent_os_backend.Sync.Rows.{SyncEvent, SyncSequence, Tables}
use agent_os_backend.Sync.Repo.{get_next_sequence, seed_sequence, advance_sequence}

-- Each event was given a number below its user's counter, a user has one counter, and no two events
-- of a user share a number or a client event id.
pub record IsSequenced (t : Tables) : Type 0 where
  pub numbered :
      (e : SyncEvent)
      → In e t.events
      → (s : SyncSequence) × In s t.sequences
        × (s.user_id ≡ e.user_id)
        × (e.sequence < s.next_sequence)
  pub one_counter :
      (a b : SyncSequence) → In a t.sequences → In b t.sequences → a.user_id ≡ b.user_id → a ≡ b
  pub distinct :
      (a b : SyncEvent)
      → In a t.events
      → In b t.events
      → a.user_id ≡ b.user_id
      → a.sequence ≡ b.sequence
      → a ≡ b
  pub by_client :
      (a b : SyncEvent)
      → In a t.events
      → In b t.events
      → a.user_id ≡ b.user_id
      → a.client_event_id ≡ b.client_event_id
      → a.client_event_id ≢ ""
      → a ≡ b

abbrev pub seed : ℕ → ℕ → SyncSequence
seed user_id now = record { user_id = user_id; next_sequence = 1; updated_at = now }

-- The counters after the first statement: a user without one gets one.
abbrev pub Seeded : ℕ → ℕ → List SyncSequence → List SyncSequence → Type 0
Seeded user_id now before after =
    (after ≡ before)
    ⊎ (((s : SyncSequence) → In s before → s.user_id ≢ user_id)
        × (after ≡ before ++ seed user_id now ∷ []))

abbrev pub counted : ℕ → ℕ → ℕ → Tables → Tables
counted user_id next now t = record t {
  sequences =
      update (λ a. a.user_id == user_id) (λ a. record a { next_sequence = next; updated_at = now })
        t.sequences;
}

abbrev pub with_counters : Tables → List SyncSequence → Tables
with_counters t base = record t { sequences = base }

-- The number `n` has been given out.
abbrev pub Reserved : ℕ → ℕ → ℕ → Tables → Tables → Type 0
Reserved user_id now n t t' =
    (base : List SyncSequence) × (s : SyncSequence) × Seeded user_id now t.sequences base
    × In s base
    × (s.user_id ≡ user_id)
    × (s.next_sequence ≡ n)
    × (t' ≡ counted user_id (n + 1) now (with_counters t base))

seed-ok :
    (user_id now : ℕ) (d : Db Tables) (u : Unit {0})
    → (seed_sequence user_id now d).0 ≡ ok u
    → (base : List SyncSequence) × Seeded user_id now d.tables.sequences base
      × ((seed_sequence user_id now d).1.tables ≡ record d.tables { sequences = base })
unfolding seed_sequence
seed-ok user_id now d u h =
    let k = statement-ok _ d u h in
    elim (Bool-cases (any (λ s. s.user_id == user_id) d.tables.sequences)) [
      | inl e ↦ (d.tables.sequences, inl refl, ground arith)
      | inr e ↦ (
        d.tables.sequences ++ seed user_id now ∷ [],
        inr (
          λ s i q.
              let m = All-In _ d.tables.sequences s (any-false _ d.tables.sequences e) i in
              ground (arith, nat_beq_iff s.user_id user_id),
          refl,
        ),
        ground arith,
      )
    ]

advance-ok :
    (user_id n now : ℕ) (d : Db Tables) (u : Unit {0})
    → (advance_sequence user_id n now d).0 ≡ ok u
    → (advance_sequence user_id n now d).1.tables ≡ counted user_id n now d.tables
unfolding advance_sequence
advance-ok user_id n now d u h = let k = statement-ok _ d u h in ground arith

pub get_next_sequence-ok :
    (user_id now : ℕ) (d : Db Tables) (n : ℕ)
    → (get_next_sequence user_id now d).0 ≡ ok n
    → Reserved user_id now n d.tables (get_next_sequence user_id now d).1.tables
unfolding get_next_sequence
get_next_sequence-ok user_id now d n h =
    let look : Exec Tables SyncSequence =
      select (λ t. first (λ s. s.user_id == user_id) t.sequences) in
    let tail : SyncSequence → Exec Tables ℕ =
      λ seq. advance_sequence user_id (seq.next_sequence + 1) now >>= λ _. pure seq.next_sequence in
    let (inner, same) = transaction-ok (seed_sequence user_id now >>= λ _. look >>= tail) d n h in
    let (u, seeded, k) = >>=-ok (seed_sequence user_id now) (λ _. look >>= tail) (next d) n inner in
    let mid = (seed_sequence user_id now (next d)).1 in
    let (base, how, written) = seed-ok user_id now (next d) u seeded in
    let (s, found, k') = >>=-ok look tail mid n (subst (λ c. c.0 ≡ ok n) k inner) in
    let (v, advanced, k'') =
      >>=-ok (advance_sequence user_id (s.next_sequence + 1) now) (λ _. pure s.next_sequence)
        (look mid).1 n (subst (λ c. c.0 ≡ ok n) (k ∙ k') inner) in
    let seen : (look mid).1.tables ≡ mid.tables =
      tables-select (λ t. first (λ a. a.user_id == user_id) t.sequences) mid in
    let counter =
      first-ok (λ a. a.user_id == user_id) base s
        (subst (λ t. first (λ a. a.user_id == user_id) t.sequences ≡ ok s) written
          (select-ok _ mid s found)) in
    let given : s.next_sequence ≡ n = ground (arith, ap (λ c. c.0) (k ∙ k' ∙ k'')) in
    (
      base,
      s,
      how,
      counter.0,
      (nat_beq_iff _ _).0 counter.1,
      given,
      same
          ∙ ap (λ c. c.1.tables) (k ∙ k' ∙ k'')
          ∙ advance-ok user_id (s.next_sequence + 1) now (look mid).1 v advanced
          ∙ ap (counted user_id (s.next_sequence + 1) now) (seen ∙ written)
          ∙ ap (λ m. counted user_id (m + 1) now (with_counters d.tables base)) given,
    )
