-- ===== src/Conversations/Apart.antt =====
-- Recording sync events keeps what is said of the tables beside the sync log.
use agent_os_backend.Prelude.{ℕ, suc, String, List, [], ◌∷◌}
use agent_os_backend.Db.Keeps.{Keeps, keeps_rules, zoom-Keeps, bind-Keeps}
use agent_os_backend.Sync.Rows
use agent_os_backend.Sync.Service
use agent_os_backend.Sync.Service.{SyncEnvelope}
use agent_os_backend.Conversations.Rows.{
  Conversation, ConversationParticipant, ConversationReadState, Message, MessageReaction, Tables,
}
use agent_os_backend.Conversations.Events.{
  Externals, Times, record_envelope, record_for, record_conversation_sync_events,
  record_participant_sync_events, record_conversation_read_sync_event, record_message_sync_events,
  record_reaction_sync_events,
}

module _ (P : Tables → Type 0)
    (k : (t : Tables) (s : Rows.Tables) → P t → P (record t { sync = s })) where
  envelope-Keeps : (f : Service.Fresh) (e : SyncEnvelope) → Keeps P (record_envelope f e)
  unfolding record_envelope
  envelope-Keeps f e = search (keeps_rules, zoom-Keeps, k)

  record_for-Keeps :
      (times : Times) (n : ℕ) (e : ℕ → SyncEnvelope) (ps : List ConversationParticipant)
      → Keeps P (record_for times n e ps)
  unfolding record_for
  record_for-Keeps times n e [] = search keeps_rules
  record_for-Keeps times n e (p ∷ ps) =
      bind-Keeps _ _ (envelope-Keeps (times n) (e p.user_id))
        λ _. record_for-Keeps times (suc n) e ps

  module _ (x : Externals) (times : Times) where
    pub conversation_events-Keeps :
        (ps : List ConversationParticipant) (c : Conversation) (operation : String)
        → Keeps P (record_conversation_sync_events x times ps c operation)
    unfolding record_conversation_sync_events
    conversation_events-Keeps ps c operation = record_for-Keeps times 0 _ ps

    pub participant_events-Keeps :
        (now : ℕ) (ps : List ConversationParticipant) (p : ConversationParticipant)
        (operation : String) (actor : ℕ)
        → Keeps P (record_participant_sync_events x times now ps p operation actor)
    unfolding record_participant_sync_events
    participant_events-Keeps now ps p operation actor = record_for-Keeps times 0 _ ps

    pub read_event-Keeps :
        (s : ConversationReadState) → Keeps P (record_conversation_read_sync_event x times s)
    unfolding record_conversation_read_sync_event
    read_event-Keeps s = envelope-Keeps (times 0) _

    pub message_events-Keeps :
        (ps : List ConversationParticipant) (m : Message) (operation client_event_id : String)
        → Keeps P (record_message_sync_events x times ps m operation client_event_id)
    unfolding record_message_sync_events
    message_events-Keeps ps m operation client_event_id = record_for-Keeps times 0 _ ps

    pub reaction_events-Keeps :
        (ps : List ConversationParticipant) (r : MessageReaction) (operation : String)
        → Keeps P (record_reaction_sync_events x times ps r operation)
    unfolding record_reaction_sync_events
    reaction_events-Keeps ps r operation = record_for-Keeps times 0 _ ps
