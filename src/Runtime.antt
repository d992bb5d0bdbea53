-- ===== src/Runtime.antt =====
-- The runtime (runtime/src/lib.rs): the pallets of the repository put together, what a chain of
-- them does, and the constants that they are configured with.
pub mod Calls
pub mod Steps
pub mod Parts
pub mod Consistency
pub mod Marks
pub mod Freezing
pub mod Locks
pub mod Owners
pub mod Holders
pub mod Keeping
pub mod Linking
pub mod Config
pub mod Period
pub mod Threshold
pub mod Tests
