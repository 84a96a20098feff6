-- ===== src/Audit.antt =====
-- The audit log and its hash chain: internal/service/audit.go and internal/repository/audit_repo.go.
pub mod Rows
pub mod Repo
pub mod Service
pub mod Chain
pub mod Recording
pub mod Breaks
pub mod Verification
