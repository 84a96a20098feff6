-- ===== src/Knowledge/Rows.antt =====
-- The table of internal/model/models.go for knowledge entries, with the tables of the sync log. A nil
-- slice of tags is `none`.
use agent_os_backend.Prelude.{ℕ, String, Option, List}
use agent_os_backend.Json.{JsonMap}
use agent_os_backend.Sync.Rows

pub record UserKnowledgeEntry : Type 0 where
  pub id : ℕ
  pub created_at : ℕ
  pub updated_at : ℕ
  pub user_id : ℕ
  pub entry_id : String
  pub title : String
  pub content_markdown : String
  pub summary : String
  pub tags : Option (List String)
  pub metadata : JsonMap
  pub source_uri : String
  pub status : String
  pub version : ℕ
  pub content_hash : String
  pub deleted_at : Option ℕ
  pub updated_by_device_id : String

pub record Tables : Type 0 where
  pub entries : List UserKnowledgeEntry
  pub sync : Rows.Tables
