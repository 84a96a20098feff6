-- ===== src/Conversations/Access.antt =====
-- Who may do what in a conversation: requireAdminOrOwner and GetMessages of
-- internal/service/conversation.go.
use agent_os_backend.Prelude.{ℕ, String, false, ◌≡◌, refl, Option, some, ◌==◌, nat_eq, ◌∙◌, sym}
use agent_os_backend.Errors.{Error, Result, ok, err}
use agent_os_backend.Db.{Db, Exec, ◌>>=◌}
use agent_os_backend.Db.Triples.{
  Triple, bind-Triple, attempt-Triple, raise-Triple, never-Triple, if-Triple, Ends,
}
use agent_os_backend.Table.{find}
use agent_os_backend.Table.Finding.{or_not_found-ok}
use agent_os_backend.Conversations.Rows.{ConversationParticipant, Tables}
use agent_os_backend.Conversations.Repo.{is_member, get_participant}
use agent_os_backend.Conversations.Events.{Externals, Times}
use agent_os_backend.Conversations.Service.{
  manages, if_manager, require_admin_or_owner, UpdateConversationRequest, edit_conversation,
  add_participant, remove_participant, update_participant, take_out,
}

-- No row makes the actor an administrator or owner of the conversation.
abbrev pub IsPowerless : ℕ → ℕ → Tables → Type 0
IsPowerless conv actor t =
    (p : ConversationParticipant)
    → find (is_member conv actor) t.participants ≡ some p
    → manages p ≡ false

-- A call that fails and changes nothing.
abbrev pub Refuses : {A : Type 0} → Exec Tables A → Db Tables → Type 0
Refuses m d = (e : Error) × ((m d).0 ≡ err e) × ((m d).1.tables ≡ d.tables)

module _ (t : Tables) (conv actor : ℕ) (powerless : IsPowerless conv actor t) where
  abbrev Same : Tables → Type 0
  Same s = s ≡ t

  abbrev Never : {A : Type 0} → A → Tables → Type 0
  Never _ _ = ⊥

  -- the actor's row, as it was looked up
  abbrev Looked : Result ConversationParticipant → Tables → Type 0
  Looked (ok p) s = Same s × (manages p ≡ false)
  Looked (err e) s = Same s

  require-Never : Triple Same Never Same (require_admin_or_owner conv actor)
  unfolding require_admin_or_owner get_participant if_manager
  require-Never =
      bind-Triple Looked _ _
        (attempt-Triple _
          (λ s p e k. (
            cc,
            powerless p
                (or_not_found-ok (find (is_member conv actor) t.participants) p (rw (← e) k)),
          ))
          (λ s x h. h))
        λ r. after r
    where
      after : (r : Result ConversationParticipant) → Triple (Looked r) Never Same (if_manager r)
      after (ok p) =
          if-Triple (manages p) _ _ (λ e. never-Triple _ λ s h. cc) (λ e. raise-Triple _ λ s h. h.0)
      after (err e) = raise-Triple _ λ s h. h

  -- A call that asks for the actor's role first.
  then-Never :
      {A B : Type 0} (m : Exec Tables A) (f : A → Exec Tables B)
      → Triple Same Never Same m
      → Triple Same Never Same (m >>= f)
  then-Never m f h = bind-Triple Never _ _ h λ a. never-Triple _ λ s e. e

  Never-Refuses :
      {A : Type 0} (m : Exec Tables A) (d : Db Tables)
      → d.tables ≡ t
      → Triple Same Never Same m
      → Refuses m d
  Never-Refuses {A = A} m d here h = go (m d).0 refl (h.after d here)
    where
      go : (r : Result A) → (m d).0 ≡ r → Ends Never Same r (m d).1.tables → Refuses m d
      go (ok a) e k = absurd k
      go (err x) e k = (x, e, k ∙ sym here)

-- A user who is neither an administrator nor an owner of a conversation can change neither it nor its
-- participants: UpdateConversation, AddParticipant and UpdateParticipant, and RemoveParticipant of
-- another user, return an error and leave every table as it was.
pub powerless-Refused :
    (x : Externals) (times : Times) (now conv actor : ℕ) (d : Db Tables)
    → IsPowerless conv actor d.tables
    → ((req : UpdateConversationRequest) → Refuses (edit_conversation x times now actor conv req) d)
      × ((user : ℕ) → Refuses (add_participant x times now conv actor user) d)
      × ((user : ℕ) (role : Option String)
          → Refuses (update_participant x times now conv actor user role) d)
      × ((user : ℕ)
          → (actor == user) ≡ false
          → Refuses (remove_participant x times now conv actor user) d)
unfolding edit_conversation add_participant update_participant remove_participant
powerless-Refused x times now conv actor d powerless =
    let t = d.tables in
    let role_first = require-Never t conv actor powerless in
    (
      λ req.
          Never-Refuses t conv actor powerless _ d refl
            (then-Never t conv actor powerless _ _ role_first),
      λ user.
          Never-Refuses t conv actor powerless _ d refl
            (then-Never t conv actor powerless _ _ role_first),
      λ user role.
          Never-Refuses t conv actor powerless _ d refl
            (then-Never t conv actor powerless _ _ role_first),
      λ user other. rw other (
          Never-Refuses t conv actor powerless _ d refl (
            then-Never t conv actor powerless _ (λ _. take_out x times now conv actor user)
              role_first)),
    )
