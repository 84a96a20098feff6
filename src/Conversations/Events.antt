-- ===== src/Conversations/Events.antt =====
-- The sync events that conversations and messages record for each participant: the record… functions
-- and payloads of internal/service/conversation.go and message.go. The sync service is configured.
-- The errors of RecordEnvelope are ignored, and what it then pushes to devices is not modelled here.
use agent_os_backend.Prelude.{
  ℕ, suc, String, Option, none, some, List, [], ◌∷◌, ◌==◌, string_eq, if◌then◌else◌, concat,
}
use agent_os_backend.Db.{Exec, pure, attempt, zoom, ◌>>=◌, ◌>>◌}
use agent_os_backend.Json.{Json, JsonMap, text, instant, object, null, empty, member}
use agent_os_backend.Sync.Service
use agent_os_backend.Sync.Service.{SyncEnvelope}
use agent_os_backend.Conversations.Rows.{
  Conversation, ConversationParticipant, ConversationReadState, Message, MessageReaction, Tables,
}

-- UUID.String, and the JSON of a *float64
pub record Externals : Type 0 where
  pub uuid_text : ℕ → String
  pub geo_json : Option ℕ → Json

abbrev pub or_null : {A : Type 0} → (A → Json) → Option A → Json
or_null f none = null
or_null f (some a) = f a

-- what the sync service takes from outside for each of the events of a call
abbrev pub Times : Type 0
Times = ℕ → Service.Fresh

-- one call of RecordEnvelope on the tables of the sync log, its error ignored
unfoldable pub record_envelope : Service.Fresh → SyncEnvelope → Exec Tables (Unit {0})
record_envelope fresh envelope =
    attempt
      (zoom (λ t. t.sync) (λ s t. record t { sync = s }) (Service.record_envelope fresh envelope))
    >>= λ _. pure tt

-- an event of no device, as these calls record it
unfoldable pub envelope_of : ℕ → String → String → String → String → JsonMap → SyncEnvelope
envelope_of user_id object_type object_id operation client_event_id payload = record {
  user_id = user_id;
  source_device_id = "";
  object_type = object_type;
  object_id = object_id;
  operation = operation;
  client_event_id = client_event_id;
  payload = payload;
}

-- the loop over the participants
unfoldable pub record_for :
    Times → ℕ → (ℕ → SyncEnvelope) → List ConversationParticipant → Exec Tables (Unit {0})
unfolding record_envelope
record_for times n envelope [] = pure tt
record_for times n envelope (p ∷ ps) =
    record_envelope (times n) (envelope p.user_id) >> record_for times (suc n) envelope ps

module _ (x : Externals) where
  unfoldable pub conversation_sync_payload : Conversation → JsonMap
  conversation_sync_payload conv = member "object_id" (text (x.uuid_text conv.id)) (
      member "conversation_id" (text (x.uuid_text conv.id)) (
        member "type" (text conv.type) (
          member "name" (text conv.name) (
            member "created_by" (text (x.uuid_text conv.created_by)) (
              member "geo_lat" (x.geo_json conv.geo_lat) (
                member "geo_lng" (x.geo_json conv.geo_lng) (
                  member "geo_radius" (x.geo_json conv.geo_radius) (
                    member "created_at" (instant conv.created_at)
                      (member "updated_at" (instant conv.updated_at) empty)))))))))

  unfoldable pub pair_text : ℕ → ℕ → String
  pair_text a b = concat (x.uuid_text a) (concat ":" (x.uuid_text b))

  -- the members that depend on the operation
  unfoldable pub by_operation : String → ℕ → JsonMap
  by_operation operation actor_id =
      if operation == "added"
      then member "status" (text "active") (member "added_by" (text (x.uuid_text actor_id)) empty)
      else if operation == "updated"
      then member "status" (text "active") (member "updated_by" (text (x.uuid_text actor_id)) empty)
      else if operation == "removed"
      then member "status" (text "removed")
          (member "removed_by" (text (x.uuid_text actor_id)) empty)
      else member "status" (text "active") empty

  unfoldable pub participant_sync_payload : ℕ → ConversationParticipant → String → ℕ → JsonMap
  unfolding pair_text by_operation
  participant_sync_payload now p operation actor_id =
      member "object_id" (text (pair_text p.conversation_id p.user_id)) (
        member "conversation_id" (text (x.uuid_text p.conversation_id)) (
          member "user_id" (text (x.uuid_text p.user_id)) (
            member "role" (text p.role) (
              member "joined_at" (instant p.joined_at)
                (member "updated_at" (instant now) (by_operation operation actor_id))))))

  unfoldable pub read_payload : ConversationReadState → JsonMap
  unfolding pair_text
  read_payload s = member "object_id" (text (pair_text s.conversation_id s.user_id)) (
      member "conversation_id" (text (x.uuid_text s.conversation_id)) (
        member "user_id" (text (x.uuid_text s.user_id)) (
          member "last_read_message_id" (or_null (λ m. text (x.uuid_text m)) s.last_read_message_id)
            (member "last_read_at" (instant s.last_read_at) empty))))

  -- reply_to and deleted_by are members only where they are set
  unfoldable pub optional_member : String → Option ℕ → JsonMap → JsonMap
  optional_member key none rest = rest
  optional_member key (some id) rest = member key (text (x.uuid_text id)) rest

  unfoldable pub message_sync_payload : Message → JsonMap
  unfolding optional_member
  message_sync_payload m = member "object_id" (text (x.uuid_text m.id)) (
      member "conversation_id" (text (x.uuid_text m.conversation_id)) (
        member "message_id" (text (x.uuid_text m.id)) (
          member "sender_id" (text (x.uuid_text m.sender_id)) (
            member "type" (text m.type) (
              member "content" (text m.content) (
                member "metadata" (object m.metadata) (
                  member "thread_id" (text m.thread_id) (
                    member "visibility" (object m.visibility) (
                      member "status" (text m.status) (
                        member "created_at" (instant m.created_at) (
                          member "edited_at" (or_null instant m.edited_at) (
                            member "deleted_at" (or_null instant m.deleted_at) (
                              optional_member "reply_to" m.reply_to
                                (optional_member "deleted_by" m.deleted_by empty))))))))))))))

  unfoldable pub reaction_text : MessageReaction → String
  unfolding pair_text
  reaction_text r = concat (pair_text r.message_id r.user_id) (concat ":" r.emoji)

  unfoldable pub reaction_sync_payload : MessageReaction → JsonMap
  unfolding reaction_text
  reaction_sync_payload r = member "object_id" (text (reaction_text r)) (
      member "conversation_id" (text (x.uuid_text r.conversation_id)) (
        member "message_id" (text (x.uuid_text r.message_id)) (
          member "user_id" (text (x.uuid_text r.user_id))
            (member "emoji" (text r.emoji) (member "created_at" (instant r.created_at) empty)))))

  module _ (times : Times) where
    unfoldable pub record_conversation_sync_events :
        List ConversationParticipant → Conversation → String → Exec Tables (Unit {0})
    unfolding record_for envelope_of conversation_sync_payload
    record_conversation_sync_events participants conv operation =
        record_for times 0
          (λ user.
            envelope_of user "conversation" (x.uuid_text conv.id) operation ""
              (conversation_sync_payload conv))
          participants

    unfoldable pub record_participant_sync_events :
        ℕ
        → List ConversationParticipant
        → ConversationParticipant
        → String
        → ℕ
        → Exec Tables (Unit {0})
    unfolding record_for envelope_of participant_sync_payload pair_text
    record_participant_sync_events now recipients p operation actor_id =
        record_for times 0
          (λ user.
            envelope_of user "participant" (pair_text p.conversation_id p.user_id) operation ""
              (participant_sync_payload now p operation actor_id))
          recipients

    unfoldable pub record_conversation_read_sync_event :
        ConversationReadState → Exec Tables (Unit {0})
    unfolding record_envelope envelope_of read_payload pair_text
    record_conversation_read_sync_event s = record_envelope (times 0) (
        envelope_of s.user_id "conversation" (pair_text s.conversation_id s.user_id) "read" ""
          (read_payload s))

    unfoldable pub record_message_sync_events :
        List ConversationParticipant → Message → String → String → Exec Tables (Unit {0})
    unfolding record_for envelope_of message_sync_payload
    record_message_sync_events participants m operation client_event_id =
        record_for times 0
          (λ user.
            envelope_of user "message" (x.uuid_text m.id) operation client_event_id
              (message_sync_payload m))
          participants

    unfoldable pub record_reaction_sync_events :
        List ConversationParticipant → MessageReaction → String → Exec Tables (Unit {0})
    unfolding record_for envelope_of reaction_sync_payload reaction_text
    record_reaction_sync_events participants r operation =
        record_for times 0
          (λ user.
            envelope_of user "message" (reaction_text r) operation "" (reaction_sync_payload r))
          participants
