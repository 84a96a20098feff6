-- ===== src/Sync.antt =====
-- Cross-device sync (internal/service/sync.go, sync_contract.go, internal/repository/sync_repo.go):
-- a log of events for each user, ordered by a sequence, with a cursor for each device.
pub mod Contract
pub mod Rows
pub mod Repo
pub mod Service
pub mod Notify
pub mod Numbers
pub mod Sequences
pub mod Recording
pub mod Retries
pub mod Order
pub mod Pulls
pub mod Cursors
