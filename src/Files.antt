-- ===== src/Files.antt =====
-- The package files: directory listings, their order and pages, and watches that stream changes.
pub mod Entry
pub mod Sort
pub mod Names
pub mod Filter
pub mod Mime
pub mod Watch
pub mod Page
pub mod Pool
pub mod Errors
pub mod Count
pub mod Mutate
mod Samples
