-- ===== src/Storage.antt =====
-- web/sync-storage.js: the durable queues, claims, clocks and gates of the client.
pub mod Proof
pub mod Gate
pub mod Projection
pub mod Records
pub mod Claims
pub mod Database
pub mod Shape
pub mod Capture
