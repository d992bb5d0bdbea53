-- ===== src/Exec.antt =====
-- A dispatchable of a pallet: a function of the storage that returns a `DispatchResult`. What was
-- written before an error stays in the storage that comes back; whether the caller then drops it
-- is the framework's business. A Rust panic (an `unwrap` of `None`) is an outcome of its own.
mod Storage
mod Monad
mod Keeps
mod Unsigned
mod Keys
pub use Storage.*
pub use Monad.*
pub use Keeps.*
pub use Unsigned.*
pub use Keys.*
