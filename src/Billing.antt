-- ===== src/Billing.antt =====
-- Billing of knowledge bases: internal/service/kb_billing.go and internal/repository/billing_repo.go.
pub mod Rows
pub mod Repo
pub mod Payouts
pub mod Claims
pub mod Usage
pub mod Plans
pub mod Invoices
pub mod Service
pub mod Operations
pub mod Frame
pub mod Apart
pub mod Balance
pub mod Refunds
pub mod Versions
pub mod Totals
