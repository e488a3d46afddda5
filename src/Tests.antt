-- ===== src/Tests.antt =====
-- The results at concrete inputs, and runs of the definitions.
mod Accounts
mod Clocks
mod Responses
mod Proofs
mod Gates
mod Identifiers
mod Authorities
mod Retries
mod Batches
mod Winners
mod Workers
mod Messages
mod Captures
mod Plans
mod Claims
mod Apps
mod Monitors
