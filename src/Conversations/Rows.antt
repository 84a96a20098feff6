-- ===== src/Conversations/Rows.antt =====
-- The tables of internal/model/models.go for conversations and messages, with the columns of a device
-- that are read here, and the tables of the sync log. A float64 is its bit pattern. The columns
-- `delivered_at` of a message and the timestamps of a read state, which no code reads, are left out.
use agent_os_backend.Prelude.{ℕ, String, Bool, Option, List}
use agent_os_backend.Json.{JsonMap}
use agent_os_backend.Sync.Rows

pub record Conversation : Type 0 where
  pub id : ℕ
  pub created_at : ℕ
  pub updated_at : ℕ
  pub type : String
  pub name : String
  pub created_by : ℕ
  pub geo_lat : Option ℕ
  pub geo_lng : Option ℕ
  pub geo_radius : Option ℕ

pub record ConversationParticipant : Type 0 where
  pub conversation_id : ℕ
  pub user_id : ℕ
  pub role : String
  pub joined_at : ℕ

pub record ConversationReadState : Type 0 where
  pub conversation_id : ℕ
  pub user_id : ℕ
  pub last_read_message_id : Option ℕ
  pub last_read_at : ℕ

pub record Message : Type 0 where
  pub id : ℕ
  pub created_at : ℕ
  pub updated_at : ℕ
  pub conversation_id : ℕ
  pub sender_id : ℕ
  pub type : String
  pub content : String
  pub metadata : JsonMap
  pub reply_to : Option ℕ
  pub thread_id : String
  pub visibility : JsonMap
  pub client_event_id : String
  pub status : String
  pub edited_at : Option ℕ
  pub deleted_at : Option ℕ
  pub deleted_by : Option ℕ

pub record OfflineMessage : Type 0 where
  pub id : ℕ
  pub created_at : ℕ
  pub user_id : ℕ
  pub device_id : String
  pub message_id : ℕ
  pub delivered : Bool

pub record MessageReaction : Type 0 where
  pub id : ℕ
  pub created_at : ℕ
  pub conversation_id : ℕ
  pub message_id : ℕ
  pub user_id : ℕ
  pub emoji : String

pub record Device : Type 0 where
  pub user_id : ℕ
  pub device_id : String
  pub paired_at : ℕ

pub record Tables : Type 0 where
  pub conversations : List Conversation
  pub participants : List ConversationParticipant
  pub read_states : List ConversationReadState
  pub messages : List Message
  pub reactions : List MessageReaction
  pub offline : List OfflineMessage
  pub devices : List Device
  pub sync : Rows.Tables

-- what an INSERT takes from outside
pub record Stamp : Type 0 where
  pub id : ℕ
  pub at : ℕ
