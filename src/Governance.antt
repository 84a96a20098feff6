-- ===== src/Governance.antt =====
-- The governance plane (internal/service/governance*.go, internal/repository/governance_repo.go):
-- policy rules, kill switches, decisions, approval receipts and the enforcer that consults them.
pub mod Rows
pub mod Repo
pub mod Policies
pub mod Service
pub mod Listing
pub mod Pages
pub mod Enforcer
pub mod Evaluation
pub mod Availability
pub mod SingleUse
pub mod Edits
pub mod Receipts
pub mod Enforcement
