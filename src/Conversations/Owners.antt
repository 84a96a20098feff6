-- ===== src/Conversations/Owners.antt =====
-- That a conversation with an owner keeps one: removeParticipant, UpdateParticipant and
-- ensureNotLastOwner of internal/service/conversation.go.
use agent_os_backend.Prelude.{
  ℕ, ◌≤◌, String, Bool, true, false, ◌≡◌, sym, ◌∙◌, ◌⊎◌, inl, inr, some, List, arith, ◌==◌, leb,
  nat_eq, string_eq, nat_beq_iff, Bool-cases,
}
use agent_os_backend.Errors.{ok}
use agent_os_backend.Db.Keeps.{Keeps, keeps_rules}
use agent_os_backend.Db.Triples.{
  Triple, Triple-Keeps, bind-Triple, select-Triple, if-Triple, fail_if-Triple, write-Triple,
  Keeps-Triple, pure-Triple, wrapping-Triple, given-Triple,
}
use agent_os_backend.Table.{count, find, delete, first}
use agent_os_backend.Table.Finding.{or_not_found-ok, find_sound}
use agent_os_backend.Table.Counts.{count-delete-le, count_le-delete, count-delete_other}
use agent_os_backend.Conversations.Rows.{ConversationParticipant, Tables}
use agent_os_backend.Conversations.Repo.{
  is_member, has_role, get_participant, get_participants, count_participants_by_role,
  remove_participant_row,
}
use agent_os_backend.Conversations.Events.{Externals, Times, record_participant_sync_events}
use agent_os_backend.Conversations.Service.{ensure_not_last_owner, keep_an_owner, take_out}
use agent_os_backend.Conversations.Apart.{participant_events-Keeps}

abbrev pub is_owner : ℕ → ConversationParticipant → Bool
is_owner c = has_role c "owner"

-- The key of the table allows one row for a user in a conversation, and conversation `c` has an owner.
pub record IsOwned (c : ℕ) (t : Tables) : Type 0 where
  pub keyed : (v u : ℕ) → count (is_member v u) t.participants ≤ 1
  pub owned : 1 ≤ count (is_owner c) t.participants

removed-IsOwned :
    (c conv user : ℕ) (t : Tables) (r : ConversationParticipant)
    → IsOwned c t
    → find (is_member conv user) t.participants ≡ some r
    → (is_owner c r ≡ false) ⊎ (2 ≤ count (is_owner c) t.participants)
    → IsOwned c (record t { participants = delete (is_member conv user) t.participants })
removed-IsOwned c conv user t r h found safe = record {
  keyed = λ v u.
      omega
        (arith, h.keyed v u, count-delete-le (is_member v u) (is_member conv user) t.participants);
  owned = elim safe [
    | inl e ↦ omega (
      arith,
      h.owned,
      count-delete_other (is_owner c) (is_member conv user) t.participants r found e
          (h.keyed conv user),
    )
    | inr two ↦ omega (
      arith,
      two,
      h.keyed conv user,
      count_le-delete (is_owner c) (is_member conv user) t.participants,
    )
  ];
}

-- the row that a look-up found, in the rows that it was found in
pub record Found (c conv user : ℕ) (r : ConversationParticipant) (t : Tables) : Type 0 where
  pub kept : IsOwned c t
  pub found : find (is_member conv user) t.participants ≡ some r

pub record Safe (c conv user : ℕ) (r : ConversationParticipant) (t : Tables) : Type 0 where
  pub looked : Found c conv user r t
  pub safe : (is_owner c r ≡ false) ⊎ (2 ≤ count (is_owner c) t.participants)

pub participants-Keeps : (P : Tables → Type 0) (conv : ℕ) → Keeps P (get_participants conv)
unfolding get_participants
participants-Keeps P conv = search keeps_rules

module _ (c conv user : ℕ) where
  pub get_participant-Found :
      Triple (IsOwned c) (Found c conv user) (IsOwned c) (get_participant conv user)
  unfolding get_participant
  get_participant-Found =
      select-Triple _
        (λ t r h e. record {
          kept = h;
          found = or_not_found-ok (find (is_member conv user) t.participants) r e;
        })
        (λ t h. h)

  ensure-Keeps : (P : Tables → Type 0) → Keeps P (ensure_not_last_owner conv user)
  unfolding ensure_not_last_owner count_participants_by_role get_participant
  ensure-Keeps P = search keeps_rules depth 10

  pub keep_an_owner-Keeps : (P : Tables → Type 0) (b : Bool) → Keeps P (keep_an_owner conv user b)
  unfolding keep_an_owner
  keep_an_owner-Keeps P true = ensure-Keeps P
  keep_an_owner-Keeps P false = search keeps_rules

  module _ (r : ConversationParticipant) where
    pub owner_parts :
        is_owner c r ≡ true
        → is_member conv user r ≡ true
        → ((r.role == "owner") ≡ true) × (conv ≡ c)
    unfolding has_role is_member
    owner_parts e k =
        let same : r.conversation_id ≡ c = (nat_beq_iff r.conversation_id c).0 (ground arith) in
        let here : r.conversation_id ≡ conv =
          (nat_beq_iff r.conversation_id conv).0 (ground arith) in
        (ground arith, sym here ∙ same)

    -- what is known once the owners have been counted
    record Counted (n : ℕ) (t : Tables) : Type 0 where
      looked : Found c conv user r t
      number : count (is_owner conv) t.participants ≡ n

    abbrev Known : ConversationParticipant → Tables → Type 0
    Known target t = Found c conv user r t × (r ≡ target)

    same_row :
        (t : Tables) (target : ConversationParticipant)
        → Found c conv user r t
        → first (is_member conv user) t.participants ≡ ok target
        → r ≡ target
    same_row t target h e =
        let k = or_not_found-ok (find (is_member conv user) t.participants) target e in
        cc (h.found, k)

    role_clash :
        (target : ConversationParticipant)
        → is_owner c r ≡ true
        → (target.role == "owner") ≡ false
        → r ≡ target
        → ⊥
    unfolding has_role
    role_clash target owner other e =
        let k : (r.role == "owner") ≡ false = rw e other in ground (arith, k)

    enough :
        (t : Tables) (n : ℕ)
        → leb n 1 ≡ false
        → count (is_owner conv) t.participants ≡ n
        → conv ≡ c
        → 2 ≤ count (is_owner c) t.participants
    enough t n many number e = rw (← e) (ground arith)

    pub ensure-Safe :
        is_owner c r ≡ true
        → conv ≡ c
        → Triple
            (Found c conv user r)
            (λ _. Safe c conv user r)
            (IsOwned c)
            (ensure_not_last_owner conv user)
    unfolding ensure_not_last_owner count_participants_by_role get_participant
    ensure-Safe owner same =
        bind-Triple Counted _ _
          (select-Triple _ (λ t n h e. record { looked = h; number = cc }) (λ t h. h.kept))
          λ n.
            if-Triple (leb n 1) _ _
              (λ few.
                bind-Triple Known _ _
                  (select-Triple _ (λ t target h e. (h.looked, same_row t target h.looked e))
                    (λ t h. h.looked.kept))
                  λ target.
                    fail_if-Triple _ _ (λ other t h. absurd (role_clash target owner other h.1))
                      (λ t h. h.0.kept))
              (λ many.
                pure-Triple _
                  λ t h. record { looked = h.looked; safe = inr (enough t n many h.number same) })

    keep_an_owner-Safe :
        Triple
          (Found c conv user r)
          (λ _. Safe c conv user r)
          (IsOwned c)
          (keep_an_owner conv user (r.role == "owner"))
    unfolding keep_an_owner ensure_not_last_owner
    keep_an_owner-Safe =
        given-Triple (is_member conv user r ≡ true) _
          (λ t h. (find_sound (is_member conv user) t.participants r h.found).1)
          λ k. elim (Bool-cases (is_owner c r)) [
            | inl e ↦ rw (owner_parts e k).0 (ensure-Safe e (owner_parts e k).1)
            | inr e ↦
                Keeps-Triple _ (keep_an_owner-Keeps (Found c conv user r) (r.role == "owner"))
                  (λ _ t h. record { looked = h; safe = inl e }) (λ t h. h.kept)
          ]

-- Removing a participant keeps an owner, if there is one.
module _ (c : ℕ) (x : Externals) (times : Times) (now : ℕ) where
  pub events-IsOwned :
      (ps : List ConversationParticipant) (p : ConversationParticipant) (operation : String)
      (actor : ℕ)
      → Keeps (IsOwned c) (record_participant_sync_events x times now ps p operation actor)
  events-IsOwned =
      participant_events-Keeps (IsOwned c) (λ t s h. record { keyed = h.keyed; owned = h.owned }) x
        times now

  pub take_out-IsOwned :
      (conv actor user : ℕ) → Keeps (IsOwned c) (take_out x times now conv actor user)
  unfolding take_out remove_participant_row
  take_out-IsOwned conv actor user =
      Triple-Keeps {R = λ _. IsOwned c} {E = IsOwned c} _ (λ _ t h. h) (λ t h. h)
        (bind-Triple (Found c conv user) _ _ (get_participant-Found c conv user) λ r.
          bind-Triple (λ _. Safe c conv user r) _ _ (keep_an_owner-Safe c conv user r)
            λ _.
              bind-Triple (λ _. Safe c conv user r) _ _
                (wrapping-Triple _ _ (
                  Keeps-Triple _ (participants-Keeps (Safe c conv user r) conv) (λ _ t h. h)
                    (λ t h. h.looked.kept)))
                λ ps.
                  bind-Triple (λ _. IsOwned c) _ _
                    (write-Triple _ _
                      (λ t h. removed-IsOwned c conv user t r h.looked.kept h.looked.found h.safe)
                      (λ t h. h.looked.kept))
                    λ _.
                      Keeps-Triple _ (events-IsOwned ps r "removed" actor) (λ _ t h. h) (λ t h. h))
