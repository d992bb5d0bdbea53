-- ===== src/Fragments.antt =====
-- The pallet `fragments` (pallets/fragments/src/lib.rs): Fragment Definitions, their sale, and the
-- Fragment Instances that are made from them and given away.
pub mod Types
pub mod Minting
pub mod Calls
pub mod Giving
pub mod Effects
pub mod Mirror
pub mod Keeps
pub mod GiveKeeps
pub mod Untouched
pub mod Runs
pub mod Expiry
pub mod Supply
pub mod Editions
pub mod Numbering
pub mod GiveLaws
pub mod Tests
mod RegistryTests
pub mod Definitions
pub mod Defining
pub mod Holding
pub mod Backing
pub mod Backed
pub mod Spared
pub mod Taking
pub mod Registry
pub mod Registering
pub mod Retiring
pub mod Copies
pub mod Soundness
pub mod Refinement
pub mod BuyLaws
