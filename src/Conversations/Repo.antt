-- ===== src/Conversations/Repo.antt =====
-- Conversations, participants and read states of internal/repository/conversation_repo.go.
use agent_os_backend.Prelude.{
  ℕ, String, Bool, ◌&&◌, List, [], ◌∷◌, ◌++◌, leb, ltb, ◌==◌, nat_eq, string_eq, if◌then◌else◌,
}
use agent_os_backend.Errors.{ok, err, duplicate_key}
use agent_os_backend.Db.{Exec, select, statement}
use agent_os_backend.Table.{filter, any, upsert, delete, count, sort_by, first}
use agent_os_backend.Conversations.Rows.{
  Conversation, ConversationParticipant, ConversationReadState, Tables,
}

unfoldable pub create : Conversation → Exec Tables (Unit {0})
create c = statement λ t.
    if any (λ x. x.id == c.id) t.conversations
    then err duplicate_key
    else ok (tt, record t { conversations = t.conversations ++ c ∷ [] })

unfoldable pub get_by_id : ℕ → Exec Tables Conversation
get_by_id id = select λ t. first (λ c. c.id == id) t.conversations

-- Save, which sets updated_at
unfoldable pub update_conversation : ℕ → Conversation → Exec Tables (Unit {0})
update_conversation now c = statement λ t. ok (
  tt,
  record t {
    conversations = upsert (λ x. x.id == c.id) (record c { updated_at = now }) t.conversations;
  },
)

-- the row of a user in a conversation
unfoldable pub is_member : ℕ → ℕ → ConversationParticipant → Bool
is_member conversation_id user_id p = p.conversation_id == conversation_id && p.user_id == user_id

-- the JOIN with the participants, whose key is the pair of conversation and user
unfoldable pub get_user_conversations : ℕ → Exec Tables (List Conversation)
unfolding is_member
get_user_conversations user_id = select λ t. ok (
    sort_by (λ a b. leb b.updated_at a.updated_at)
      (filter (λ c. any (is_member c.id user_id) t.participants) t.conversations))

unfoldable pub add_participant_row : ConversationParticipant → Exec Tables (Unit {0})
unfolding is_member
add_participant_row cp = statement λ t.
    if any (is_member cp.conversation_id cp.user_id) t.participants
    then err duplicate_key
    else ok (tt, record t { participants = t.participants ++ cp ∷ [] })

unfoldable pub remove_participant_row : ℕ → ℕ → Exec Tables (Unit {0})
unfolding is_member
remove_participant_row conversation_id user_id = statement λ t.
    ok (tt, record t { participants = delete (is_member conversation_id user_id) t.participants })

unfoldable pub get_participants : ℕ → Exec Tables (List ConversationParticipant)
get_participants conversation_id =
    select λ t. ok (filter (λ p. p.conversation_id == conversation_id) t.participants)

unfoldable pub is_participant : ℕ → ℕ → Exec Tables Bool
unfolding is_member
is_participant conversation_id user_id =
    select λ t. ok (ltb 0 (count (is_member conversation_id user_id) t.participants))

unfoldable pub get_participant : ℕ → ℕ → Exec Tables ConversationParticipant
unfolding is_member
get_participant conversation_id user_id =
    select λ t. first (is_member conversation_id user_id) t.participants

-- Save
unfoldable pub update_participant_row : ConversationParticipant → Exec Tables (Unit {0})
unfolding is_member
update_participant_row cp = statement λ t. ok (
  tt,
  record t { participants = upsert (is_member cp.conversation_id cp.user_id) cp t.participants },
)

unfoldable pub has_role : ℕ → String → ConversationParticipant → Bool
has_role conversation_id role p = p.conversation_id == conversation_id && p.role == role

unfoldable pub count_participants_by_role : ℕ → String → Exec Tables ℕ
unfolding has_role
count_participants_by_role conversation_id role =
    select λ t. ok (count (has_role conversation_id role) t.participants)

-- Save
unfoldable pub upsert_read_state : ConversationReadState → Exec Tables (Unit {0})
upsert_read_state state = statement λ t. ok (
  tt,
  record t {
    read_states =
        upsert (λ r. r.conversation_id == state.conversation_id && r.user_id == state.user_id) state
          t.read_states;
  },
)

-- Two JOINs, one for each user. `First` orders by the id.
unfoldable pub find_private_conversation : ℕ → ℕ → Exec Tables Conversation
unfolding is_member
find_private_conversation user_a user_b = select λ t.
    first
      (λ c.
        c.type == "private"
        && any (is_member c.id user_a) t.participants
        && any (is_member c.id user_b) t.participants)
      (sort_by (λ a b. leb a.id b.id) t.conversations)
