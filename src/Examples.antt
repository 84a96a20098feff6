-- ===== src/Examples.antt =====
-- The theorems at concrete inputs, in modules named for the components.
mod Governance
mod Receipts
mod Sync
mod Audit
mod Billing
mod Conversations
mod Knowledge
mod Hub
mod Pages
mod Sensitive
