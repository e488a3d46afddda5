-- ===== src/Uuid.antt =====
-- web/sync-storage-uuid.js: version 7 identifiers from a time and a random number, and the
-- reservation of a batch of them.
pub mod Parts
pub mod Reserve
