-- ===== src/Tests.antt =====
-- The theorems applied at concrete inputs.
pub mod Abis
pub mod Pools
pub mod Handlers
pub mod Relay
pub mod Streams
pub mod Formats
