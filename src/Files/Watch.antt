-- ===== src/Files/Watch.antt =====
-- files/watch.go: a watch keeps one directory's listing and publishes its changes as batches.
pub mod Batch
pub mod Diff
pub mod Publish
pub mod Flush
pub mod Enrich
pub mod Replay
pub mod Flushed
pub mod Enriched
pub mod Applied
pub mod Session
pub mod Open
pub mod Live
pub mod Ordered
pub mod Numbered
