-- ===== src/Shellapp.antt =====
-- The package shellapp: the files that name the processes of a shell.
pub mod Pids
pub mod Found
mod Samples
