-- ===== src/Files/Watch/Replay.antt =====
-- files/watch.go: a batch of `diff` takes the client from the view before to the view now.
pub mod Insertion
pub mod Order
pub mod Kept
pub mod Removal
pub mod Update
pub mod View
