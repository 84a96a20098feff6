-- ===== src/Sensitive.antt =====
-- Confirmation tokens for sensitive operations: internal/service/sensitive_operation.go and
-- internal/repository/sensitive_operation_repo.go.
pub mod Rows
pub mod Repo
pub mod Service
pub mod Notes
pub mod Lookups
pub mod Uses
pub mod Races
