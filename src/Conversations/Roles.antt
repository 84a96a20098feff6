-- ===== src/Conversations/Roles.antt =====
-- That UpdateParticipant and AddParticipant of internal/service/conversation.go keep an owner, and that
-- any calls on participants do.
use agent_os_backend.Prelude.{
  ℕ, ◌≤◌, String, true, false, ◌&&◌, ◌≡◌, refl, ◌⊎◌, inl, inr, Option, none, some, [], ◌∷◌, ◌++◌,
  arith, ◌==◌, ◌!=◌, nat_eq, string_eq, nat_beq_iff, Bool-cases, ap, ◌∙◌,
}
use agent_os_backend.Errors.{Result, ok, err}
use agent_os_backend.Db.Keeps.{
  Keeps, keeps_rules, insert-Keeps, bind-Keeps, wrapping-Keeps, pure-Keeps,
}
use agent_os_backend.Db.Triples.{
  Triple, Triple-Keeps, bind-Triple, fail_if-Triple, write-Triple, Keeps-Triple, pure-Triple,
  wrapping-Triple, given-Triple, weaken-Triple,
}
use agent_os_backend.Table.{count, find, upsert, any}
use agent_os_backend.Table.Finding.{find_sound}
use agent_os_backend.Table.Counts.{
  count-append_true, count-append_false, count-append-le, any-false-count, count_le-update,
  count-update_other, count-update_hit, count-update_same,
}
use agent_os_backend.Conversations.Rows.{ConversationParticipant, Tables}
use agent_os_backend.Conversations.Repo.{
  is_member, has_role, add_participant_row, update_participant_row, get_participant,
}
use agent_os_backend.Conversations.Events.{Externals, Times}
use agent_os_backend.Conversations.Service.{
  keep_an_owner, with_role, update_participant, add_participant, require_admin_or_owner, if_manager,
}
use agent_os_backend.Conversations.Owners.{
  IsOwned, is_owner, Found, Safe, keep_an_owner-Keeps, owner_parts, ensure-Safe,
  get_participant-Found, participants-Keeps, events-IsOwned,
}

is_member_at :
    (v u : ℕ) (x p : ConversationParticipant)
    → is_member p.conversation_id p.user_id x ≡ true
    → is_member v u x ≡ is_member v u p
unfolding is_member
is_member_at v u x p h =
    let a : x.conversation_id ≡ p.conversation_id =
      (nat_beq_iff x.conversation_id p.conversation_id).0 (ground arith) in
    let b : x.user_id ≡ p.user_id = (nat_beq_iff x.user_id p.user_id).0 (ground arith) in rw (a, b)

is_member_key :
    (v u : ℕ) (p : ConversationParticipant)
    → is_member v u p ≡ true
    → (p.conversation_id ≡ v) × (p.user_id ≡ u)
unfolding is_member
is_member_key v u p h =
    ((nat_beq_iff p.conversation_id v).0 (ground arith), (nat_beq_iff p.user_id u).0 (ground arith))

inserted-IsOwned :
    (c : ℕ) (t : Tables) (p : ConversationParticipant)
    → any (is_member p.conversation_id p.user_id) t.participants ≡ false
    → IsOwned c t
    → IsOwned c (record t { participants = t.participants ++ p ∷ [] })
inserted-IsOwned c t p fresh h = record {
  keyed = λ v u. elim (Bool-cases (is_member v u p)) [
    | inl e ↦
        let (a, b) = is_member_key v u p e in
        let zero : count (is_member p.conversation_id p.user_id) t.participants ≡ 0 =
          any-false-count (is_member p.conversation_id p.user_id) t.participants fresh in
        let zero' : count (is_member v u) t.participants ≡ 0 = rw (← a, ← b) zero in
        omega (arith, zero', count-append_true (is_member v u) t.participants p e)
    | inr e ↦ omega (arith, h.keyed v u, count-append_false (is_member v u) t.participants p e)
  ];
  owned = omega (arith, h.owned, count-append-le (is_owner c) t.participants p);
}

updated-IsOwned :
    (c : ℕ) (t : Tables) (r p : ConversationParticipant)
    → IsOwned c t
    → find (is_member p.conversation_id p.user_id) t.participants ≡ some r
    → (is_owner c r ≡ false) ⊎ (2 ≤ count (is_owner c) t.participants) ⊎ (is_owner c p ≡ true)
    → IsOwned c (record t {
      participants = upsert (is_member p.conversation_id p.user_id) p t.participants;
    })
unfolding upsert
updated-IsOwned c t r p h found safe =
    let m = is_member p.conversation_id p.user_id in
    elim (Bool-cases (any m t.participants)) [
      | inl e ↦ rw e (record {
        keyed = λ v u. omega (
          arith,
          h.keyed v u,
          count-update_same (is_member v u) m p t.participants (λ x k. is_member_at v u x p k),
        );
        owned = elim safe [
          | inl k ↦ omega (
            arith,
            h.owned,
            count-update_other (is_owner c) m p t.participants r found k
                (h.keyed p.conversation_id p.user_id),
          )
          | inr (inl two) ↦ omega (
            arith,
            two,
            h.keyed p.conversation_id p.user_id,
            count_le-update (is_owner c) m p t.participants,
          )
          | inr (inr k) ↦ omega (arith, h.owned, count-update_hit (is_owner c) m p t.participants k)
        ];
      })
      | inr e ↦ rw e (inserted-IsOwned c t p e h)
    ]

pub add_participant_row-IsOwned :
    (c : ℕ) (p : ConversationParticipant) → Keeps (IsOwned c) (add_participant_row p)
unfolding add_participant_row
add_participant_row-IsOwned c p = insert-Keeps _ _ _ _ λ t fresh h. inserted-IsOwned c t p fresh h

if_manager-Keeps :
    (P : Tables → Type 0) (r : Result ConversationParticipant) → Keeps P (if_manager r)
unfolding if_manager
if_manager-Keeps P (ok p) = search keeps_rules
if_manager-Keeps P (err e) = search keeps_rules

pub require-Keeps :
    (P : Tables → Type 0) (conv actor : ℕ) → Keeps P (require_admin_or_owner conv actor)
unfolding require_admin_or_owner get_participant
require-Keeps P conv actor = search (keeps_rules, if_manager-Keeps)

-- the row that a change of role writes
record Changed (c conv user : ℕ) (r p : ConversationParticipant) (t : Tables) : Type 0 where
  looked : Found c conv user r t
  same_key : (p.conversation_id ≡ r.conversation_id) × (p.user_id ≡ r.user_id)
  safe : (is_owner c r ≡ false) ⊎ (2 ≤ count (is_owner c) t.participants) ⊎ (is_owner c p ≡ true)

module _ (c conv user : ℕ) (r : ConversationParticipant) where
  abbrev given_role : String → ConversationParticipant
  given_role role = record r { role = role }

  stays_owner :
      (role : String)
      → is_owner c r ≡ true
      → (role == "owner") ≡ true
      → is_owner c (given_role role) ≡ true
  unfolding has_role
  stays_owner role e k = ground arith

  demotes_owner :
      (role : String)
      → (role == "owner") ≡ false
      → (r.role == "owner") ≡ true
      → (r.role == "owner" && role != "owner") ≡ true
  demotes_owner role k e = rw (e, k)

  -- what is asked of the owners before the new role is set
  guard-Changed :
      (role : String)
      → Triple
          (Found c conv user r)
          (λ _. Changed c conv user r (given_role role))
          (IsOwned c)
          (keep_an_owner conv user (r.role == "owner" && role != "owner"))
  unfolding keep_an_owner
  guard-Changed role =
      given-Triple (is_member conv user r ≡ true) _
        (λ t h. (find_sound (is_member conv user) t.participants r h.found).1)
        λ k. elim (Bool-cases (is_owner c r)) [
          | inr e ↦
              Keeps-Triple _ (keep_an_owner-Keeps c conv user (Found c conv user r) _)
                (λ _ t h. record { looked = h; same_key = (refl, refl); safe = inl e })
                (λ t h. h.kept)
          | inl e ↦ elim (Bool-cases (role == "owner")) [
            | inl o ↦
                Keeps-Triple _ (keep_an_owner-Keeps c conv user (Found c conv user r) _)
                  (λ _ t h. record {
                    looked = h;
                    same_key = (refl, refl);
                    safe = inr (inr (stays_owner role e o));
                  })
                  (λ t h. h.kept)
            | inr o ↦
                let (is, same) = owner_parts c conv user r e k in
                rw (demotes_owner role o is) (
                  weaken-Triple (λ _. Safe c conv user r)
                    (λ _. Changed c conv user r (given_role role)) _
                    (λ _ t h. record {
                      looked = h.looked;
                      same_key = (refl, refl);
                      safe = elim h.safe [ inl f ↦ inl f | inr two ↦ inr (inl two) ];
                    })
                    (ensure-Safe c conv user r e same))
          ]
        ]

  with_role-Changed :
      (role : Option String)
      → Triple
          (Found c conv user r)
          (λ p. Changed c conv user r p)
          (IsOwned c)
          (with_role conv user r role)
  unfolding with_role
  with_role-Changed none = pure-Triple r λ t h. record {
    looked = h;
    same_key = (refl, refl);
    safe = elim (Bool-cases (is_owner c r)) [ inl e ↦ inr (inr e) | inr e ↦ inl e ];
  }
  with_role-Changed (some role) =
      bind-Triple (λ _. Found c conv user r) _ _ (fail_if-Triple _ _ (λ _ t h. h) (λ t h. h.kept))
        λ _.
          bind-Triple (λ _. Changed c conv user r (given_role role)) _ _ (guard-Changed role)
            λ _. pure-Triple _ λ t h. h

  -- the Save of the changed row
  save-IsOwned :
      (p : ConversationParticipant)
      → Triple (Changed c conv user r p) (λ _. IsOwned c) (IsOwned c) (update_participant_row p)
  unfolding update_participant_row
  save-IsOwned p =
      given-Triple (is_member conv user r ≡ true) _
        (λ t h. (find_sound (is_member conv user) t.participants r h.looked.found).1)
        λ k.
          write-Triple _ _
            (λ t h.
              updated-IsOwned c t r p h.looked.kept
                (let (v, u) = is_member_key conv user r k in
                  ap (λ a. find (is_member a p.user_id) t.participants) (h.same_key.0 ∙ v)
                  ∙ ap (λ b. find (is_member conv b) t.participants) (h.same_key.1 ∙ u)
                  ∙ h.looked.found)
                h.safe)
            (λ t h. h.looked.kept)

module _ (c : ℕ) (x : Externals) (times : Times) (now : ℕ) where
  abbrev KeptRow : ConversationParticipant → Tables → Type 0
  KeptRow _ = IsOwned c

  pub update_participant-IsOwned :
      (conv actor user : ℕ) (role : Option String)
      → Keeps (IsOwned c) (update_participant x times now conv actor user role)
  unfolding update_participant
  update_participant-IsOwned conv actor user role =
      bind-Keeps _ _ (require-Keeps (IsOwned c) conv actor) λ _.
        Triple-Keeps {R = KeptRow} {E = IsOwned c} _ (λ _ t h. h) (λ t h. h)
          (bind-Triple (Found c conv user) _ _ (get_participant-Found c conv user) λ r.
            bind-Triple (λ p. Changed c conv user r p) _ _ (with_role-Changed c conv user r role)
              λ p.
                bind-Triple (λ _. IsOwned c) _ _
                  (wrapping-Triple _ _ (save-IsOwned c conv user r p))
                  λ _.
                    Keeps-Triple _
                      (bind-Keeps _ _ (wrapping-Keeps _ _ (participants-Keeps (IsOwned c) conv))
                        λ ps.
                          bind-Keeps _ _ (events-IsOwned c x times now ps p "updated" actor)
                            λ _. pure-Keeps p)
                      (λ _ t h. h) (λ t h. h))

  pub add_participant-IsOwned :
      (conv actor user : ℕ) → Keeps (IsOwned c) (add_participant x times now conv actor user)
  unfolding add_participant
  add_participant-IsOwned conv actor user =
      search
        (
          keeps_rules,
          require-Keeps (IsOwned c),
          add_participant_row-IsOwned,
          wrapping-Keeps,
          participants-Keeps (IsOwned c),
          events-IsOwned,
        )
        depth 12
