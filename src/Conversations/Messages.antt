-- ===== src/Conversations/Messages.antt =====
-- internal/service/message.go. `times` is what the recorded events take from outside, `now` the clock
-- of the call. A nil map of a request is `none`.
use agent_os_backend.Prelude.{
  ℕ, String, Bool, true, false, ◌||◌, Option, none, some, List, [], ◌∷◌, ◌==◌, ◌!=◌, nat_eq,
  string_eq, if◌then◌else◌, concat,
}
use agent_os_backend.Errors.{Result, ok, err, message, record_not_found}
use agent_os_backend.Db.{Exec, ◌>>=◌, ◌>>◌, pure, raise, lift, attempt, wrapping, fail_if}
use agent_os_backend.Json.{JsonMap, text, null, empty, member}
use agent_os_backend.Conversations.Rows.{
  ConversationParticipant, Message, MessageReaction, OfflineMessage, Device, Tables, Stamp,
}
use agent_os_backend.Conversations.Repo.{get_participants, is_participant}
use agent_os_backend.Conversations.MessageRepo.{
  create_message, get_message_by_id, find_message_by_client_event_id, save_message,
  soft_delete_message, get_reaction, create_reaction, remove_reaction_row, save_offline_message,
  get_undelivered_messages, mark_offline_delivered, cleanup_expired_offline_rows, get_user_devices,
}
use agent_os_backend.Conversations.Events.{
  Externals, Times, record_message_sync_events, record_reaction_sync_events,
}
use agent_os_backend.Conversations.Service.{or_message, if_participant}

pub record SendMessageRequest : Type 0 where
  pub conversation_id : ℕ
  pub type : String
  pub content : String
  pub metadata : Option JsonMap
  pub reply_to : Option ℕ
  pub thread_id : String
  pub visibility : Option JsonMap
  pub client_event_id : String

pub record UpdateMessageRequest : Type 0 where
  pub content : String
  pub metadata : Option JsonMap
  pub client_event_id : String

pub record MessageDelivery : Type 0 where
  pub message : Message
  pub participants : List ConversationParticipant

-- m[key] == nil || m[key] == "", where a missing key reads nil
unfoldable pub is_blank : String → JsonMap → Bool
is_blank key empty = true
is_blank key (member k (text value) rest) =
    let later = is_blank key rest in if k == key then value == "" else later
is_blank key (member k null rest) =
    let later = is_blank key rest in if k == key then true else later
is_blank key (member k value rest) =
    let later = is_blank key rest in if k == key then false else later

unfoldable pub is_media : String → Bool
is_media type = type == "image" || type == "file" || type == "audio" || type == "video"

unfoldable pub validate_message_metadata : String → JsonMap → Result (Unit {0})
unfolding is_blank is_media
validate_message_metadata type metadata =
    if type == "" || type == "text" || type == "system"
    then ok tt
    else if is_media type
    then (if is_blank "object_id" metadata
        then err (message (concat "metadata.object_id is required for " (concat type " messages")))
        else ok tt)
    else if type == "card"
    then (if is_blank "card_type" metadata
        then err (message "metadata.card_type is required for card messages")
        else ok tt)
    else err (message (concat "unsupported message type: " type))

abbrev pub or_empty_map : Option JsonMap → JsonMap
or_empty_map none = empty
or_empty_map (some m) = m

abbrev pub or_conversation_scope : Option JsonMap → JsonMap
or_conversation_scope none = member "scope" (text "conversation") empty
or_conversation_scope (some m) = m

unfoldable pub type_of : SendMessageRequest → String
type_of req = if req.type == "" then "text" else req.type

-- the thread of a reply, if the request names none
unfoldable pub thread_of : Externals → String → Message → String
thread_of x thread_id replied =
    if thread_id != ""
    then thread_id
    else if replied.thread_id != ""
    then replied.thread_id
    else x.uuid_text replied.id

-- the check of `reply_to`, which gives the thread
unfoldable pub reply_thread : Externals → SendMessageRequest → Option ℕ → Exec Tables String
unfolding thread_of or_message
reply_thread x req none = pure req.thread_id
reply_thread x req (some id) = do
  found ← attempt (get_message_by_id id)
  replied ← or_message "reply_to message not found" found
  fail_if (replied.conversation_id != req.conversation_id)
      (message "reply_to message is not in the same conversation")
  pure (thread_of x req.thread_id replied)

unfoldable pub new_message : Stamp → ℕ → SendMessageRequest → String → Message
unfolding type_of
new_message s sender_id req thread_id = record {
  id = s.id;
  created_at = s.at;
  updated_at = s.at;
  conversation_id = req.conversation_id;
  sender_id = sender_id;
  type = type_of req;
  content = req.content;
  metadata = or_empty_map req.metadata;
  reply_to = req.reply_to;
  thread_id = thread_id;
  visibility = or_conversation_scope req.visibility;
  client_event_id = req.client_event_id;
  status = "active";
  edited_at = none;
  deleted_at = none;
  deleted_by = none;
}

-- the message of a conversation, for a call that changes it
unfoldable pub message_of : ℕ → ℕ → Exec Tables Message
unfolding or_message
message_of conversation_id message_id = do
  found ← attempt (get_message_by_id message_id)
  msg ← or_message "message not found" found
  fail_if (msg.conversation_id != conversation_id) (message "message is not in the conversation")
  pure msg

module _ (x : Externals) (times : Times) where
  unfoldable pub send_new : Stamp → ℕ → SendMessageRequest → Exec Tables MessageDelivery
  unfolding new_message reply_thread validate_message_metadata type_of
  send_new s sender_id req = do
    lift (validate_message_metadata (type_of req) (or_empty_map req.metadata))
    thread_id ← reply_thread x req req.reply_to
    let msg = new_message s sender_id req thread_id
    wrapping "create message" (create_message msg)
    participants ← wrapping "get participants" (get_participants req.conversation_id)
    record_message_sync_events x times participants msg "created" req.client_event_id
    pure (record { message = msg; participants = participants })

  -- after the look-up of the client's event id, whose error is not told from "none"
  unfoldable pub replay_or_send :
      Stamp → ℕ → SendMessageRequest → Result Message → Exec Tables MessageDelivery
  unfolding send_new
  replay_or_send s sender_id req (err e) = send_new s sender_id req
  replay_or_send s sender_id req (ok existing) = do
    participants ← wrapping "get participants" (get_participants existing.conversation_id)
    pure (record { message = existing; participants = participants })

  unfoldable pub send_message : Stamp → ℕ → SendMessageRequest → Exec Tables MessageDelivery
  unfolding replay_or_send send_new if_participant
  send_message s sender_id req = do
    joined ← attempt (is_participant req.conversation_id sender_id)
    if_participant "access denied: not a participant" joined
    if req.client_event_id != ""
        then attempt (find_message_by_client_event_id sender_id req.client_event_id)
          >>= replay_or_send s sender_id req
        else send_new s sender_id req

  unfoldable pub update_message : ℕ → ℕ → ℕ → ℕ → UpdateMessageRequest → Exec Tables Message
  unfolding message_of
  update_message now actor_id conversation_id message_id req = do
    msg ← message_of conversation_id message_id
    fail_if (msg.sender_id != actor_id) (message "access denied: only sender can edit message")
    fail_if (msg.status == "deleted") (message "message is deleted")
    let after = record msg {
      content = req.content;
      metadata = or_empty_map req.metadata;
      edited_at = some now;
      updated_at = now;
    }
    wrapping "update message" (save_message now after)
    participants ← wrapping "get participants" (get_participants conversation_id)
    record_message_sync_events x times participants after "updated" req.client_event_id
    pure after

  unfoldable pub delete_stored : ℕ → ℕ → ℕ → ℕ → String → Exec Tables Message
  delete_stored now actor_id conversation_id message_id client_event_id = do
    deleted ← wrapping "delete message" (soft_delete_message message_id actor_id now)
    participants ← wrapping "get participants" (get_participants conversation_id)
    record_message_sync_events x times participants deleted "deleted" client_event_id
    pure deleted

  unfoldable pub delete_message : ℕ → ℕ → ℕ → ℕ → String → Exec Tables Message
  unfolding message_of delete_stored
  delete_message now actor_id conversation_id message_id client_event_id = do
    msg ← message_of conversation_id message_id
    fail_if (msg.sender_id != actor_id) (message "access denied: only sender can delete message")
    if msg.status == "deleted"
        then pure msg
        else delete_stored now actor_id conversation_id message_id client_event_id

  -- FirstOrCreate: the SELECT, and an INSERT where it found nothing
  unfoldable pub first_or_create : MessageReaction → Result MessageReaction → Exec Tables (Unit {0})
  first_or_create reaction (ok found) = pure tt
  first_or_create reaction (err record_not_found) = create_reaction reaction
  first_or_create reaction (err e) = raise e

  unfoldable pub add_reaction : Stamp → ℕ → ℕ → ℕ → String → Exec Tables MessageReaction
  unfolding message_of first_or_create if_participant
  add_reaction s actor_id conversation_id message_id emoji = do
    fail_if (emoji == "") (message "emoji is required")
    message_of conversation_id message_id
    joined ← attempt (is_participant conversation_id actor_id)
    if_participant "access denied: not a participant" joined
    let reaction : MessageReaction = record {
      id = s.id;
      created_at = s.at;
      conversation_id = conversation_id;
      message_id = message_id;
      user_id = actor_id;
      emoji = emoji;
    }
    wrapping "add reaction"
        (attempt (get_reaction message_id actor_id emoji) >>= first_or_create reaction)
    stored ← wrapping "get reaction" (get_reaction message_id actor_id emoji)
    participants ← wrapping "get participants" (get_participants conversation_id)
    record_reaction_sync_events x times participants stored "reaction_added"
    pure stored

  -- RemoveReaction once the reaction is looked up: a missing one is no error
  unfoldable pub remove_found : ℕ → ℕ → ℕ → String → Result MessageReaction → Exec Tables (Unit {0})
  remove_found actor_id conversation_id message_id emoji (err e) = pure tt
  remove_found actor_id conversation_id message_id emoji (ok reaction) = do
    wrapping "remove reaction" (remove_reaction_row message_id actor_id emoji)
    participants ← wrapping "get participants" (get_participants conversation_id)
    record_reaction_sync_events x times participants reaction "reaction_removed"

  unfoldable pub remove_reaction : ℕ → ℕ → ℕ → String → Exec Tables (Unit {0})
  unfolding message_of remove_found if_participant
  remove_reaction actor_id conversation_id message_id emoji = do
    message_of conversation_id message_id
    joined ← attempt (is_participant conversation_id actor_id)
    if_participant "access denied: not a participant" joined
    found ← attempt (get_reaction message_id actor_id emoji)
    remove_found actor_id conversation_id message_id emoji found

-- SaveOfflineMessages: `stamps` is what the INSERTs take from outside, by user and device. An error of
-- the INSERT is logged, and the loop goes on.
unfoldable pub save_for_devices :
    (ℕ → String → Stamp) → (String → Bool) → ℕ → ℕ → List Device → Exec Tables (Unit {0})
save_for_devices stamps online user_id message_id [] = pure tt
save_for_devices stamps online user_id message_id (d ∷ ds) =
    let rest = save_for_devices stamps online user_id message_id ds in
    let s = stamps user_id d.device_id in
    if online d.device_id
    then rest
    else attempt (
        save_offline_message (record {
          id = s.id;
          created_at = s.at;
          user_id = user_id;
          device_id = d.device_id;
          message_id = message_id;
          delivered = false;
        }))
      >> rest

-- an error of the look-up is logged, and the user is passed over
unfoldable pub save_for_user :
    (ℕ → String → Stamp) → (String → Bool) → ℕ → ℕ → Result (List Device) → Exec Tables (Unit {0})
unfolding save_for_devices
save_for_user stamps online user_id message_id (err e) = pure tt
save_for_user stamps online user_id message_id (ok devices) =
    save_for_devices stamps online user_id message_id devices

unfoldable pub save_offline_messages :
    (ℕ → String → Stamp)
    → (String → Bool)
    → Message
    → List ConversationParticipant
    → Exec Tables (Unit {0})
unfolding save_for_user
save_offline_messages stamps online msg [] = pure tt
save_offline_messages stamps online msg (p ∷ ps) =
    let rest = save_offline_messages stamps online msg ps in
    if p.user_id == msg.sender_id
    then rest
    else attempt (get_user_devices p.user_id)
      >>= save_for_user stamps online p.user_id msg.id
      >> rest

unfoldable pub fetch_offline_messages :
    ℕ → String → Exec Tables (List (OfflineMessage × Option Message))
fetch_offline_messages user_id device_id = get_undelivered_messages user_id device_id 100

unfoldable pub ack_offline_messages : List ℕ → Exec Tables (Unit {0})
ack_offline_messages ids = mark_offline_delivered ids

-- `cutoff` is the time that AddDate puts the retention days before now.
unfoldable pub cleanup_expired_offline : ℕ → Exec Tables ℕ
cleanup_expired_offline cutoff = cleanup_expired_offline_rows cutoff
