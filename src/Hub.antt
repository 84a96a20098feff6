-- ===== src/Hub.antt =====
-- The WebSocket hub: internal/ws/hub.go, with the channels of internal/ws/client.go.
pub mod State
pub mod Loop
pub mod Presence
pub mod Slow
