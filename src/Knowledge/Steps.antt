-- ===== src/Knowledge/Steps.antt =====
-- The writes of internal/repository/knowledge_entries_repo.go as steps of an entry's state.
use agent_os_backend.Prelude.{
  ℕ, String, Bool, true, false, ◌≡◌, refl, inl, inr, none, some, List, [], ◌∷◌, ◌++◌, arith, ◌||◌,
  ◌==◌, nat_eq, string_eq, nat_beq_iff, and-eq-true, Bool-cases,
}
use agent_os_backend.Table.{find, any, update}
use agent_os_backend.Knowledge.Rows.{UserKnowledgeEntry}
use agent_os_backend.Knowledge.Repo.{is_entry, is_active_entry, rewritten, buried}
use agent_os_backend.Knowledge.Machine.{
  State, absent, Kind, creation, rewriting, deletion, Step, create_step, update_step, delete_step,
  state_of,
}

-- A state stays or, where `mine` holds, makes a step of the kind.
pub data Moves (kind : Kind) (mine : Type 0) : State → State → Type 0 where
  stays : {a : State} → Moves kind mine a a
  steps : {a b : State} → mine → Step kind a b → Moves kind mine a b

update-Moves :
    (kind : Kind) (mine : Type 0) (p q : UserKnowledgeEntry → Bool)
    (f : UserKnowledgeEntry → UserKnowledgeEntry) (xs : List UserKnowledgeEntry)
    → ((e : UserKnowledgeEntry) → p (f e) ≡ p e)
    → ((e : UserKnowledgeEntry)
        → p e ≡ true
        → q e ≡ true
        → mine × Step kind (state_of (some e)) (state_of (some (f e))))
    → Moves kind mine (state_of (find p xs)) (state_of (find p (update q f xs)))
unfolding find update
update-Moves kind mine p q f [] same step = stays
update-Moves kind mine p q f (x ∷ xs) same step = elim (Bool-cases (q x)) [
  | inl k ↦ elim (Bool-cases (p x)) [
    | inl e ↦ rw (k, same x, e) (steps (step x e k).0 (step x e k).1)
    | inr e ↦ rw (k, same x, e) (update-Moves kind mine p q f xs same step)
  ]
  | inr k ↦ elim (Bool-cases (p x)) [
    | inl e ↦ rw (k, e) stays
    | inr e ↦ rw (k, e) (update-Moves kind mine p q f xs same step)
  ]
]

-- An INSERT beside rows of which none meets the condition that the new row meets.
append-Moves :
    (kind : Kind) (mine : Type 0) (p : UserKnowledgeEntry → Bool) (xs : List UserKnowledgeEntry)
    (a : UserKnowledgeEntry)
    → (p a ≡ true → (find p xs ≡ none) × mine × Step kind absent (state_of (some a)))
    → Moves kind mine (state_of (find p xs)) (state_of (find p (xs ++ a ∷ [])))
unfolding find state_of
append-Moves kind mine p [] a step = elim (Bool-cases (p a)) [
  | inl e ↦ rw e (steps (step e).1 (step e).2)
  | inr e ↦ rw e stays
]
append-Moves kind mine p (x ∷ xs) a step = elim (Bool-cases (p x)) [
  | inl e ↦ rw e stays
  | inr e ↦ rw e (
      append-Moves kind mine p xs a
        λ h. let n : find p xs ≡ none = ground (arith, (step h).0) in (n, (step h).1, (step h).2))
]

missing :
    {A : Type 0} (p q : A → Bool) (xs : List A)
    → ((x : A) → p x ≡ true → q x ≡ true)
    → any q xs ≡ false
    → find p xs ≡ none
unfolding find any
missing p q [] h k = refl
missing p q (x ∷ xs) h k = ground (arith, h x, missing p q xs h)

module _ (mine_user : ℕ) (mine_id : String) (u : ℕ) (k : String) where
  abbrev pub Mine : Type 0
  Mine = (u ≡ mine_user) × (k ≡ mine_id)

  both-Mine :
      (e : UserKnowledgeEntry) → is_entry u k e ≡ true → is_entry mine_user mine_id e ≡ true → Mine
  unfolding is_entry
  both-Mine e h g =
      let (a, b) = and-eq-true (e.user_id == u) (e.entry_id == k) h in
      let (c, d) = and-eq-true (e.user_id == mine_user) (e.entry_id == mine_id) g in
      let eu = (nat_beq_iff e.user_id u).0 a in
      let em = (nat_beq_iff e.user_id mine_user).0 c in
      let ek = (string_eq.equals_iff e.entry_id k).0 b in
      let ei = (string_eq.equals_iff e.entry_id mine_id).0 d in (cc, cc)

  pub rewritten-Moves :
      (now : ℕ) (new : UserKnowledgeEntry) (xs : List UserKnowledgeEntry)
      → Moves rewriting Mine (state_of (find (is_entry u k) xs)) (
          state_of (
            find
              (is_entry u k)
              (update (is_active_entry mine_user mine_id) (rewritten now new) xs)))
  unfolding is_active_entry rewritten is_entry state_of
  rewritten-Moves now new xs =
      update-Moves rewriting Mine (is_entry u k) _ _ xs (λ e. refl)
        λ e h g.
          let (m, active) = and-eq-true (is_entry mine_user mine_id e) (e.status == "active") g in
          (both-Mine e h m, rw active update_step)

  pub buried-Moves :
      (device_id content_hash : String) (now : ℕ) (xs : List UserKnowledgeEntry)
      → Moves deletion Mine (state_of (find (is_entry u k) xs)) (
          state_of (
            find
              (is_entry u k)
              (update (is_active_entry mine_user mine_id) (buried device_id content_hash now) xs)))
  unfolding is_active_entry buried is_entry state_of
  buried-Moves device_id content_hash now xs =
      update-Moves deletion Mine (is_entry u k) _ _ xs (λ e. refl)
        λ e h g.
          let (m, active) = and-eq-true (is_entry mine_user mine_id e) (e.status == "active") g in
          (both-Mine e h m, rw active delete_step)

  -- the row that CreateEntry inserts
  pub created-Moves :
      (new : UserKnowledgeEntry) (xs : List UserKnowledgeEntry)
      → new.user_id ≡ mine_user
      → new.entry_id ≡ mine_id
      → new.status ≡ "active"
      → new.version ≡ 1
      → any (λ e. e.id == new.id || is_entry new.user_id new.entry_id e) xs ≡ false
      → Moves creation Mine
          (state_of (find (is_entry u k) xs))
          (state_of (find (is_entry u k) (xs ++ new ∷ [])))
  unfolding is_entry state_of
  created-Moves new xs user entry status version fresh =
      append-Moves creation Mine (is_entry u k) xs new λ h.
        let (a, b) = and-eq-true (new.user_id == u) (new.entry_id == k) h in
        let eu = (nat_beq_iff new.user_id u).0 a in
        let ek = (string_eq.equals_iff new.entry_id k).0 b in
        (
          missing (is_entry u k) _ xs
              (λ e g.
                let s : is_entry new.user_id new.entry_id e ≡ true = rw (eu, ek) g in ground arith)
              fresh,
          (cc, cc),
          rw (status, version) create_step,
        )
