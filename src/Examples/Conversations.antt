-- ===== src/Examples/Conversations.antt =====
-- The theorems on conversations and messages at concrete inputs.
use agent_os_backend.Prelude.{
  ℕ, false, none, some, [], ◌∷◌, ◌≡◌, refl, nat_eq, string_eq, arith, In, inl, inr, sym, ◌∙◌, List,
  Option, String, ◌==◌,
}
use agent_os_backend.Json.{empty, null}
use agent_os_backend.Db.{Db}
use agent_os_backend.Sync.Rows
use agent_os_backend.Conversations.Rows.{ConversationParticipant, Message, Tables}
use agent_os_backend.Conversations.Repo.{is_member, has_role}
use agent_os_backend.Conversations.MessageRepo.{sent_as}
use agent_os_backend.Conversations.Events.{Externals, Times}
use agent_os_backend.Conversations.Service.{
  UpdateConversationRequest, edit_conversation, add_participant, update_participant,
  remove_participant, manages,
}
use agent_os_backend.Conversations.Messages.{
  SendMessageRequest, UpdateMessageRequest, send_message, update_message, delete_message,
}
use agent_os_backend.Conversations.Owners.{IsOwned}
use agent_os_backend.Conversations.Changes.{Made, changes, leave, set_role, changes-IsOwned}
use agent_os_backend.Conversations.Access.{IsPowerless, Refuses, powerless-Refused}
use agent_os_backend.Conversations.Delivery.{send_message-Replays}
use agent_os_backend.Conversations.Editing.{IsKeyed, foreign-message-Kept}
use agent_os_backend.Table.{count, find}
use agent_os_backend.Db.Triples.{Ends}

abbrev plain : Externals
plain = record { uuid_text = λ id. "id"; geo_json = λ g. null }

abbrev times : Times
times n = record { id = n; reserved_at = 5; timestamp = 5 }

abbrev ann : ConversationParticipant
ann = record { conversation_id = 7; user_id = 1; role = "owner"; joined_at = 1 }

abbrev ben : ConversationParticipant
ben = record { conversation_id = 7; user_id = 2; role = "member"; joined_at = 2 }

abbrev greeting : Message
greeting = record {
  id = 3;
  created_at = 3;
  updated_at = 3;
  conversation_id = 7;
  sender_id = 1;
  type = "text";
  content = "hello";
  metadata = empty;
  reply_to = none;
  thread_id = "";
  visibility = empty;
  client_event_id = "c1";
  status = "active";
  edited_at = none;
  deleted_at = none;
  deleted_by = none;
}

abbrev chat : Tables
chat = record {
  conversations = [];
  participants = ann ∷ ben ∷ [];
  read_states = [];
  messages = greeting ∷ [];
  reactions = [];
  offline = [];
  devices = [];
  sync = Rows.no_rows;
}

abbrev chat_db : Db Tables
chat_db = record { tables = chat; issued = 0; refuses = λ _. false }

chat-IsOwned : IsOwned 7 chat
unfolding count is_member has_role
chat-IsOwned = record { keyed = λ v u. ground arith; owned = omega arith }

-- the only owner demotes herself, then leaves
abbrev departures : List Made
departures =
    record { times = times; now = 8; change = set_role 7 1 1 (some "member") }
    ∷ record { times = times; now = 9; change = leave 7 1 }
    ∷ []

changes-IsOwned_example : IsOwned 7 (changes plain departures chat_db).tables
changes-IsOwned_example = changes-IsOwned 7 plain departures chat_db chat-IsOwned

ben-IsPowerless : IsPowerless 7 2 chat
unfolding find is_member manages
ben-IsPowerless p h = let k : ben ≡ p = cc in rw (← k) refl

powerless-Refused_example :
    ((req : UpdateConversationRequest) → Refuses (edit_conversation plain times 9 2 7 req) chat_db)
    × ((user : ℕ) → Refuses (add_participant plain times 9 7 2 user) chat_db)
    × ((user : ℕ) (role : Option String)
        → Refuses (update_participant plain times 9 7 2 user role) chat_db)
    × ((user : ℕ)
        → (2 == user) ≡ false
        → Refuses (remove_participant plain times 9 7 2 user) chat_db)
powerless-Refused_example = powerless-Refused plain times 9 7 2 chat_db ben-IsPowerless

abbrev again : SendMessageRequest
again = record {
  conversation_id = 7;
  type = "";
  content = "hello again";
  metadata = none;
  reply_to = none;
  thread_id = "";
  visibility = none;
  client_event_id = "c1";
}

send_message-Replays_example :
    Ends
      (λ delivery t. (t.messages ≡ greeting ∷ []) × (delivery.message ≡ greeting))
      (λ t. t.messages ≡ greeting ∷ [])
      (send_message plain times (record { id = 4; at = 9 }) 1 again chat_db).0
      (send_message plain times (record { id = 4; at = 9 }) 1 again chat_db).1.tables
unfolding find sent_as
send_message-Replays_example =
    send_message-Replays plain times (record { id = 4; at = 9 }) 1 again greeting chat_db refl refl

chat-IsKeyed : IsKeyed (greeting ∷ [])
chat-IsKeyed a b (inl e) (inl k) h = e ∙ sym k
chat-IsKeyed a b (inl e) (inr k) h = elim k [ ]
chat-IsKeyed a b (inr e) k h = elim e [ ]

foreign-message-Kept_example :
    ((req : UpdateMessageRequest)
      → In greeting (update_message plain times 9 2 7 3 req chat_db).1.tables.messages)
    × ((client : String)
        → In greeting (delete_message plain times 9 2 7 3 client chat_db).1.tables.messages)
foreign-message-Kept_example =
    foreign-message-Kept plain times 9 2 7 3 greeting chat_db chat-IsKeyed (inl refl)
      (λ e. ground arith)
