-- ===== src/Conversations/Service.antt =====
-- internal/service/conversation.go. `times` is what the recorded events take from outside, `now` the
-- clock of the call.
use agent_os_backend.Prelude.{
  ℕ, String, Bool, true, false, not, ◌&&◌, ◌||◌, Option, none, some, List, [], ◌∷◌, leb, ◌==◌, ◌!=◌,
  nat_eq, string_eq, if◌then◌else◌, concat,
}
use agent_os_backend.Prelude.Int.{ℤ, pos, leb_ℤ, ltb_ℤ, pos_part}
use agent_os_backend.Errors.{Result, ok, err, message}
use agent_os_backend.Db.{Exec, ◌>>=◌, ◌>>◌, pure, raise, attempt, wrapping, fail_if}
use agent_os_backend.Conversations.Rows.{
  Conversation, ConversationParticipant, ConversationReadState, Message, Tables, Stamp,
}
use agent_os_backend.Conversations.Repo.{
  create, get_by_id, update_conversation, add_participant_row, remove_participant_row,
  get_participants, is_participant, get_participant, update_participant_row,
  count_participants_by_role, upsert_read_state, find_private_conversation,
}
use agent_os_backend.Conversations.MessageRepo.{get_message_by_id, get_messages_of}
use agent_os_backend.Conversations.Events.{
  Externals, Times, record_conversation_sync_events, record_participant_sync_events,
  record_conversation_read_sync_event,
}

pub record CreateConversationRequest : Type 0 where
  pub type : String
  pub name : String
  pub participant_ids : List ℕ
  pub geo_lat : Option ℕ
  pub geo_lng : Option ℕ
  pub geo_radius : Option ℕ

pub record UpdateConversationRequest : Type 0 where
  pub name : Option String
  pub geo_lat : Option ℕ
  pub geo_lng : Option ℕ
  pub geo_radius : Option ℕ

unfoldable pub new_participant : ℕ → ℕ → String → ℕ → ConversationParticipant
new_participant conversation_id user_id role now = record {
  conversation_id = conversation_id;
  user_id = user_id;
  role = role;
  joined_at = now;
}

-- the loops that add members; a creator that is among them is passed over
unfoldable pub add_members : ℕ → ℕ → List ℕ → Exec Tables (Unit {0})
unfolding new_participant
add_members conversation_id now [] = pure tt
add_members conversation_id now (u ∷ us) =
    wrapping "add participant"
      (add_participant_row (new_participant conversation_id u "member" now))
    >> add_members conversation_id now us

unfoldable pub others : ℕ → List ℕ → List ℕ
others creator_id [] = []
others creator_id (u ∷ us) =
    let rest = others creator_id us in if u == creator_id then rest else u ∷ rest

-- if err != nil { return text }
unfoldable pub or_message : {A : Type 0} → String → Result A → Exec Tables A
or_message text (ok a) = pure a
or_message text (err e) = raise (message text)

unfoldable pub manages : ConversationParticipant → Bool
manages p = p.role == "admin" || p.role == "owner"

-- requireAdminOrOwner once the SELECT has returned
unfoldable pub if_manager : Result ConversationParticipant → Exec Tables ConversationParticipant
unfolding manages
if_manager (ok p) = if manages p then pure p else raise (message "access denied")
if_manager (err e) = raise (message "access denied")

unfoldable pub require_admin_or_owner : ℕ → ℕ → Exec Tables ConversationParticipant
unfolding if_manager
require_admin_or_owner conv_id actor_id = attempt (get_participant conv_id actor_id) >>= if_manager

unfoldable pub ensure_not_last_owner : ℕ → ℕ → Exec Tables (Unit {0})
ensure_not_last_owner conv_id target_id = do
  owner_count ← count_participants_by_role conv_id "owner"
  if leb owner_count 1
      then get_participant conv_id target_id >>= (λ target.
        fail_if (target.role == "owner") (message "cannot remove or demote last owner"))
      else pure tt

-- `if err != nil || !isParticipant`
unfoldable pub if_participant : String → Result Bool → Exec Tables (Unit {0})
if_participant text (ok true) = pure tt
if_participant text _ = raise (message text)

unfoldable pub keep_an_owner : ℕ → ℕ → Bool → Exec Tables (Unit {0})
unfolding ensure_not_last_owner
keep_an_owner conv_id target_id true = ensure_not_last_owner conv_id target_id
keep_an_owner conv_id target_id false = pure tt

unfoldable pub is_role : String → Bool
is_role role = role == "owner" || role == "admin" || role == "member"

-- the part of UpdateParticipant under `if req.Role != nil`
unfoldable pub with_role :
    ℕ → ℕ → ConversationParticipant → Option String → Exec Tables ConversationParticipant
unfolding is_role keep_an_owner
with_role conv_id target_id p none = pure p
with_role conv_id target_id p (some role) = do
  fail_if (not (is_role role)) (message (concat "unsupported participant role: " role))
  keep_an_owner conv_id target_id (p.role == "owner" && role != "owner")
  pure (record p { role = role })

abbrev pub or_old : {A : Type 0} → A → Option A → A
or_old old none = old
or_old old (some new) = new

-- a pointer that is set replaces the old pointer
abbrev pub or_older : Option ℕ → Option ℕ → Option ℕ
or_older old none = old
or_older old (some new) = some new

unfoldable pub edited : UpdateConversationRequest → Conversation → Conversation
edited req conv = record conv {
  name = or_old conv.name req.name;
  geo_lat = or_older conv.geo_lat req.geo_lat;
  geo_lng = or_older conv.geo_lng req.geo_lng;
  geo_radius = or_older conv.geo_radius req.geo_radius;
}

module _ (x : Externals) (times : Times) (now : ℕ) where
  unfoldable pub announce_created : Conversation → Exec Tables Conversation
  announce_created conv = do
    participants ← wrapping "get participants" (get_participants conv.id)
    record_conversation_sync_events x times participants conv "created"
    pure conv

  -- createPrivate once FindPrivateConversation has returned
  unfoldable pub new_private : Stamp → ℕ → ℕ → Exec Tables Conversation
  unfolding announce_created add_members
  new_private s creator_id other_id = do
    let conv : Conversation = record {
      id = s.id;
      created_at = s.at;
      updated_at = s.at;
      type = "private";
      name = "";
      created_by = creator_id;
      geo_lat = none;
      geo_lng = none;
      geo_radius = none;
    }
    wrapping "create conversation" (create conv)
    add_members conv.id now (creator_id ∷ other_id ∷ [])
    announce_created conv

  unfoldable pub existing_or_new : Stamp → ℕ → ℕ → Result Conversation → Exec Tables Conversation
  unfolding new_private
  existing_or_new s creator_id other_id (ok existing) =
      if existing.id != 0 then pure existing else new_private s creator_id other_id
  existing_or_new s creator_id other_id (err e) = new_private s creator_id other_id

  unfoldable pub create_private : Stamp → ℕ → List ℕ → Exec Tables Conversation
  unfolding existing_or_new
  create_private s creator_id (other_id ∷ []) =
      attempt (find_private_conversation creator_id other_id)
      >>= existing_or_new s creator_id other_id
  create_private s creator_id _ =
      raise (message "private conversation requires exactly one other participant")

  unfoldable pub create_group : Stamp → ℕ → CreateConversationRequest → Exec Tables Conversation
  unfolding announce_created add_members others new_participant
  create_group s creator_id req = do
    let conv : Conversation = record {
      id = s.id;
      created_at = s.at;
      updated_at = s.at;
      type = req.type;
      name = req.name;
      created_by = creator_id;
      geo_lat = req.geo_lat;
      geo_lng = req.geo_lng;
      geo_radius = req.geo_radius;
    }
    wrapping "create conversation" (create conv)
    wrapping "add creator" (add_participant_row (new_participant conv.id creator_id "admin" now))
    add_members conv.id now (others creator_id req.participant_ids)
    announce_created conv

  unfoldable pub create_conversation :
      Stamp → ℕ → CreateConversationRequest → Exec Tables Conversation
  unfolding create_private create_group
  create_conversation s creator_id req =
      if req.type == "private"
      then create_private s creator_id req.participant_ids
      else if req.type == "group" || req.type == "agent_conversation"
      then create_group s creator_id req
      else raise (message (concat "unsupported conversation type: " req.type))

  unfoldable pub edit_conversation : ℕ → ℕ → UpdateConversationRequest → Exec Tables Conversation
  unfolding edited require_admin_or_owner or_message
  edit_conversation actor_id conv_id req = do
    require_admin_or_owner conv_id actor_id
    found ← attempt (get_by_id conv_id)
    conv ← or_message "conversation not found" found
    let after = record (edited req conv) { updated_at = now }
    wrapping "update conversation" (update_conversation now (edited req conv))
    participants ← wrapping "get participants" (get_participants conv_id)
    record_conversation_sync_events x times participants after "updated"
    pure after

  -- AddParticipant checks the actor as requireAdminOrOwner does.
  unfoldable pub add_participant : ℕ → ℕ → ℕ → Exec Tables (Unit {0})
  unfolding require_admin_or_owner new_participant
  add_participant conv_id actor_id target_id = do
    require_admin_or_owner conv_id actor_id
    let cp = new_participant conv_id target_id "member" now
    add_participant_row cp
    participants ← wrapping "get participants" (get_participants conv_id)
    record_participant_sync_events x times now participants cp "added" actor_id

  -- the private removeParticipant
  unfoldable pub take_out : ℕ → ℕ → ℕ → Exec Tables (Unit {0})
  unfolding keep_an_owner
  take_out conv_id actor_id target_id = do
    removed ← get_participant conv_id target_id
    keep_an_owner conv_id target_id (removed.role == "owner")
    participants_before ← wrapping "get participants" (get_participants conv_id)
    remove_participant_row conv_id target_id
    record_participant_sync_events x times now participants_before removed "removed" actor_id

  unfoldable pub leave_conversation : ℕ → ℕ → Exec Tables (Unit {0})
  unfolding take_out
  leave_conversation conv_id user_id = take_out conv_id user_id user_id

  unfoldable pub remove_participant : ℕ → ℕ → ℕ → Exec Tables (Unit {0})
  unfolding take_out require_admin_or_owner
  remove_participant conv_id actor_id target_id =
      if actor_id != target_id
      then require_admin_or_owner conv_id actor_id >> take_out conv_id actor_id target_id
      else take_out conv_id actor_id target_id

  unfoldable pub update_participant :
      ℕ → ℕ → ℕ → Option String → Exec Tables ConversationParticipant
  unfolding with_role require_admin_or_owner
  update_participant conv_id actor_id target_id role = do
    require_admin_or_owner conv_id actor_id
    old ← get_participant conv_id target_id
    participant ← with_role conv_id target_id old role
    wrapping "update participant" (update_participant_row participant)
    participants ← wrapping "get participants" (get_participants conv_id)
    record_participant_sync_events x times now participants participant "updated" actor_id
    pure participant

  unfoldable pub mark_conversation_read : ℕ → ℕ → ℕ → Exec Tables ConversationReadState
  unfolding if_participant or_message
  mark_conversation_read actor_id conv_id message_id = do
    member ← attempt (is_participant conv_id actor_id)
    if_participant "access denied: not a participant" member
    found ← attempt (get_message_by_id message_id)
    msg ← or_message "message not found" found
    fail_if (msg.conversation_id != conv_id) (message "message is not in the conversation")
    let state : ConversationReadState = record {
      conversation_id = conv_id;
      user_id = actor_id;
      last_read_message_id = some message_id;
      last_read_at = now;
    }
    wrapping "upsert read state" (upsert_read_state state)
    record_conversation_read_sync_event x times state
    pure state

-- `err != nil` is returned here as it is
unfoldable pub get_conversation : ℕ → ℕ → Exec Tables Conversation
get_conversation conv_id user_id = do
  member ← is_participant conv_id user_id
  fail_if (not member) (message "access denied: not a participant")
  get_by_id conv_id

unfoldable pub message_limit : ℤ → ℕ
message_limit limit = if leb_ℤ limit (pos 0) || ltb_ℤ (pos 100) limit then 50 else pos_part limit

unfoldable pub get_messages : ℕ → ℕ → ℤ → Option ℕ → Exec Tables (List Message)
unfolding if_participant message_limit
get_messages conv_id user_id limit before = do
  member ← attempt (is_participant conv_id user_id)
  if_participant "access denied" member
  get_messages_of conv_id (message_limit limit) before
