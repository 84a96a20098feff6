-- ===== src/Conversations/Changes.antt =====
-- The calls of internal/service/conversation.go that write, in any order and number.
use agent_os_backend.Prelude.{ℕ, String, Option, List, [], ◌∷◌, true}
use agent_os_backend.Errors.{Result, ok, err}
use agent_os_backend.Db.{Db}
use agent_os_backend.Db.Keeps.{
  Keeps, keeps_rules, insert-Keeps, write-Keeps, bind-Keeps, wrapping-Keeps,
}
use agent_os_backend.Conversations.Rows.{Tables, Stamp, Conversation, ConversationReadState}
use agent_os_backend.Conversations.Repo.{
  create, update_conversation, get_by_id, is_participant, upsert_read_state,
  find_private_conversation,
}
use agent_os_backend.Conversations.MessageRepo.{get_message_by_id}
use agent_os_backend.Conversations.Events.{
  Externals, Times, record_conversation_read_sync_event, record_conversation_sync_events,
}
use agent_os_backend.Conversations.Service.{
  CreateConversationRequest, UpdateConversationRequest, create_conversation, create_private,
  existing_or_new, create_group, add_members, announce_created, edit_conversation, add_participant,
  leave_conversation, remove_participant, update_participant, mark_conversation_read, or_message,
  if_participant, new_private,
}
use agent_os_backend.Conversations.Apart.{conversation_events-Keeps, read_event-Keeps}
use agent_os_backend.Conversations.Owners.{IsOwned, take_out-IsOwned, participants-Keeps}
use agent_os_backend.Conversations.Roles.{
  require-Keeps, add_participant_row-IsOwned, add_participant-IsOwned, update_participant-IsOwned,
}

pub data Change : Type 0 where
  start : Stamp → ℕ → CreateConversationRequest → Change
  edit : ℕ → ℕ → UpdateConversationRequest → Change
  add : ℕ → ℕ → ℕ → Change
  leave : ℕ → ℕ → Change
  remove : ℕ → ℕ → ℕ → Change
  set_role : ℕ → ℕ → ℕ → Option String → Change
  mark_read : ℕ → ℕ → ℕ → Change

-- a call with what its events take from outside and its clock
pub record Made : Type 0 where
  pub times : Times
  pub now : ℕ
  pub change : Change

module _ (x : Externals) where
  -- the rows after one call, whether it returned a value or an error
  unfoldable pub change : Times → ℕ → Change → Db Tables → Db Tables
  change times now (start s creator req) d = (create_conversation x times now s creator req d).1
  change times now (edit actor conv req) d = (edit_conversation x times now actor conv req d).1
  change times now (add conv actor user) d = (add_participant x times now conv actor user d).1
  change times now (leave conv user) d = (leave_conversation x times now conv user d).1
  change times now (remove conv actor user) d = (remove_participant x times now conv actor user d).1
  change times now (set_role conv actor user role) d =
      (update_participant x times now conv actor user role d).1
  change times now (mark_read actor conv message) d =
      (mark_conversation_read x times now actor conv message d).1

  unfoldable pub changes : List Made → Db Tables → Db Tables
  unfolding change
  changes [] d = d
  changes (m ∷ ms) d = changes ms (change m.times m.now m.change d)

module _ (c : ℕ) (x : Externals) (times : Times) (now : ℕ) where
  conversation_events :
      (ps : _) (conv : Conversation) (operation : String)
      → Keeps (IsOwned c) (record_conversation_sync_events x times ps conv operation)
  conversation_events =
      conversation_events-Keeps (IsOwned c) (λ t s h. record { keyed = h.keyed; owned = h.owned }) x
        times

  announce-IsOwned : (conv : Conversation) → Keeps (IsOwned c) (announce_created x times now conv)
  unfolding announce_created
  announce-IsOwned conv = search (keeps_rules, participants-Keeps (IsOwned c), conversation_events)

  add_members-IsOwned : (conv : ℕ) (us : List ℕ) → Keeps (IsOwned c) (add_members conv now us)
  unfolding add_members
  add_members-IsOwned conv [] = search keeps_rules
  add_members-IsOwned conv (u ∷ us) =
      bind-Keeps _ _ (wrapping-Keeps _ _ (add_participant_row-IsOwned c _))
        λ _. add_members-IsOwned conv us

  create-IsOwned : (conv : Conversation) → Keeps (IsOwned c) (create conv)
  unfolding create
  create-IsOwned conv = insert-Keeps _ _ _ _ λ t _ h. record { keyed = h.keyed; owned = h.owned }

  new_private-IsOwned : (s : Stamp) (a b : ℕ) → Keeps (IsOwned c) (new_private x times now s a b)
  unfolding new_private
  new_private-IsOwned s a b =
      search (keeps_rules, create-IsOwned, add_members-IsOwned, announce-IsOwned) depth 12

  existing_or_new-IsOwned :
      (s : Stamp) (a b : ℕ) (r : Result Conversation)
      → Keeps (IsOwned c) (existing_or_new x times now s a b r)
  unfolding existing_or_new
  existing_or_new-IsOwned s a b (ok e) = search (keeps_rules, new_private-IsOwned)
  existing_or_new-IsOwned s a b (err e) = new_private-IsOwned s a b

  create_private-IsOwned :
      (s : Stamp) (a : ℕ) (us : List ℕ) → Keeps (IsOwned c) (create_private x times now s a us)
  unfolding create_private find_private_conversation
  create_private-IsOwned s a [] = search keeps_rules
  create_private-IsOwned s a (u ∷ []) = search (keeps_rules, existing_or_new-IsOwned)
  create_private-IsOwned s a (u ∷ v ∷ us) = search keeps_rules

  create_group-IsOwned :
      (s : Stamp) (a : ℕ) (req : _) → Keeps (IsOwned c) (create_group x times now s a req)
  unfolding create_group
  create_group-IsOwned s a req =
      search
        (
          keeps_rules, create-IsOwned, add_participant_row-IsOwned, add_members-IsOwned,
          announce-IsOwned,
        )
        depth 14

  or_message-IsOwned :
      {A : Type 0} (text : String) (r : Result A) → Keeps (IsOwned c) (or_message text r)
  unfolding or_message
  or_message-IsOwned text (ok a) = search keeps_rules
  or_message-IsOwned text (err e) = search keeps_rules

  update_conversation-IsOwned :
      (conv : Conversation) → Keeps (IsOwned c) (update_conversation now conv)
  unfolding update_conversation
  update_conversation-IsOwned conv =
      write-Keeps _ _ λ t h. record { keyed = h.keyed; owned = h.owned }

  edit-IsOwned :
      (actor conv : ℕ) (req : _) → Keeps (IsOwned c) (edit_conversation x times now actor conv req)
  unfolding edit_conversation get_by_id
  edit-IsOwned actor conv req =
      search
        (
          keeps_rules,
          require-Keeps (IsOwned c),
          or_message-IsOwned,
          update_conversation-IsOwned,
          participants-Keeps (IsOwned c),
          conversation_events,
        )
        depth 16

  remove-IsOwned :
      (conv actor user : ℕ) → Keeps (IsOwned c) (remove_participant x times now conv actor user)
  unfolding remove_participant
  remove-IsOwned conv actor user = search (keeps_rules, require-Keeps (IsOwned c), take_out-IsOwned)

  if_participant-IsOwned : (text : String) (r : _) → Keeps (IsOwned c) (if_participant text r)
  unfolding if_participant
  if_participant-IsOwned text (ok true) = search keeps_rules
  if_participant-IsOwned text _ = search keeps_rules

  upsert_read_state-IsOwned : (s : ConversationReadState) → Keeps (IsOwned c) (upsert_read_state s)
  unfolding upsert_read_state
  upsert_read_state-IsOwned s = write-Keeps _ _ λ t h. record { keyed = h.keyed; owned = h.owned }

  read_event :
      (s : ConversationReadState)
      → Keeps (IsOwned c) (record_conversation_read_sync_event x times s)
  read_event =
      read_event-Keeps (IsOwned c) (λ t s h. record { keyed = h.keyed; owned = h.owned }) x times

  mark_read-IsOwned :
      (actor conv message : ℕ)
      → Keeps (IsOwned c) (mark_conversation_read x times now actor conv message)
  unfolding mark_conversation_read is_participant get_message_by_id
  mark_read-IsOwned actor conv message =
      search
        (
          keeps_rules, if_participant-IsOwned, or_message-IsOwned, upsert_read_state-IsOwned,
          read_event,
        )
        depth 16

  change-IsOwned :
      (o : Change) (d : Db Tables) → IsOwned c d.tables → IsOwned c (change x times now o d).tables
  unfolding change create_conversation leave_conversation
  change-IsOwned (start s creator req) =
      let k : Keeps (IsOwned c) (create_conversation x times now s creator req) =
        search (keeps_rules, create_private-IsOwned, create_group-IsOwned) in
      k.after
  change-IsOwned (edit actor conv req) = (edit-IsOwned actor conv req).after
  change-IsOwned (add conv actor user) =
      (add_participant-IsOwned c x times now conv actor user).after
  change-IsOwned (leave conv user) = (take_out-IsOwned c x times now conv user user).after
  change-IsOwned (remove conv actor user) = (remove-IsOwned conv actor user).after
  change-IsOwned (set_role conv actor user role) =
      (update_participant-IsOwned c x times now conv actor user role).after
  change-IsOwned (mark_read actor conv message) = (mark_read-IsOwned actor conv message).after

-- A conversation that has an owner has one after any calls of the conversation service made one after
-- the other, whoever makes them, whether they return or fail, and however the database fails in them.
pub changes-IsOwned :
    (c : ℕ) (x : Externals) (ms : List Made) (d : Db Tables)
    → IsOwned c d.tables
    → IsOwned c (changes x ms d).tables
unfolding changes
changes-IsOwned c x [] d h = h
changes-IsOwned c x (m ∷ ms) d h =
    changes-IsOwned c x ms (change x m.times m.now m.change d)
      (change-IsOwned c x m.times m.now m.change d h)
