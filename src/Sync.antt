-- ===== src/Sync.antt =====
-- web/sync-core.js: accounts, bootstrap decisions, requests and the validation of responses.
pub mod Acks
pub mod Account
pub mod Bootstrap
pub mod Request
pub mod DateTime
pub mod Clock
pub mod Canonical
pub mod Response
pub mod Post
pub mod Order
