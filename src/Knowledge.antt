-- ===== src/Knowledge.antt =====
-- Knowledge entries of a user: internal/service/knowledge_entries.go and
-- internal/repository/knowledge_entries_repo.go.
pub mod Rows
pub mod Repo
pub mod Service
pub mod Machine
pub mod Steps
pub mod Outcomes
pub mod Calls
pub mod Refinement
pub mod Tombstones
