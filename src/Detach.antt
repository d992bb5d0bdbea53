-- ===== src/Detach.antt =====
-- The pallet `detach` (pallets/detach/src/lib.rs): requests to move a Proto-Fragment to another
-- chain, the worker that signs them, and the record of what has left.
pub mod Types
pub mod Calls
pub mod Worker
pub mod Batches
pub mod Validation
pub mod Generation
pub mod GenerationLaws
pub mod Tests
mod KeyTests
