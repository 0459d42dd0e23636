-- ===== src/Trash.antt =====
-- The package trash: the FreeDesktop trash over a file system that is a value.
pub mod Escape
pub mod Tree
pub mod Paths
pub mod Place
pub mod Info
pub mod Put
pub mod Keeps
pub mod Restore
pub mod Stored
pub mod RoundTrip
pub mod Listed
mod Samples
pub mod Naming
pub mod Safety
pub mod Outcome
pub mod Whole
pub mod Invariant
pub mod Many
pub mod Empty
pub mod Cleared
pub mod Emptied
