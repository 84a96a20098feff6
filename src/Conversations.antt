-- ===== src/Conversations.antt =====
-- Conversations, their participants and messages: internal/service/conversation.go,
-- internal/service/message.go and internal/repository/conversation_repo.go.
pub mod Rows
pub mod Repo
pub mod MessageRepo
pub mod Events
pub mod Service
pub mod Messages
pub mod Apart
pub mod Owners
pub mod Roles
pub mod Changes
pub mod Access
pub mod Delivery
pub mod Editing
