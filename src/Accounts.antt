-- ===== src/Accounts.antt =====
-- The pallet `accounts` (pallets/accounts/src/lib.rs): links between native and Ethereum accounts,
-- and the FRAG tokens that an Ethereum account has locked.
pub mod Types
pub mod Calls
pub mod Voting
pub mod Sponsor
pub mod Hexadecimal
pub mod Sync
pub mod SyncLaws
pub mod SyncRuns
pub mod Validation
pub mod Links
pub mod Votes
pub mod Locks
pub mod Linking
pub mod Runs
pub mod Tests
mod SponsorTests
mod SyncTests
