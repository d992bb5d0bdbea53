-- ===== src/Protos.antt =====
-- The pallet `protos` (pallets/protos/src/lib.rs): Proto-Fragments, their owners, tags, metadata
-- and stakes.
pub mod Types
pub mod Tags
pub mod Inclusion
pub mod Calls
pub mod Stakes
pub mod Query
pub mod Listing
pub mod Index
pub mod Effects
pub mod Atomic
pub mod Keeps
pub mod Runs
pub mod TagLaws
pub mod InclusionLaws
pub mod StakeLaws
pub mod Clearing
pub mod Staking
pub mod References
pub mod Referring
pub mod Descent
pub mod Authority
pub mod QueryLaws
pub mod Ordering
pub mod Wanted
pub mod Selecting
pub mod Frozen
pub mod Leaving
pub mod ListingLaws
pub mod Tests
pub mod LeavingTests
