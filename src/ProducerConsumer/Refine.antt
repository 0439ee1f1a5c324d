-- ===== src/ProducerConsumer/Refine.antt =====
-- Every operation of a context that represents a pool does what the pool's operation says.
pub mod Produce
pub mod Release
pub mod Consume
pub mod Cleanup
pub mod Construct
