-- ===== src/Files/Sort.antt =====
-- files/sort.go: the order of a listing. slices.SortStableFunc is modelled by a stable insertion
-- sort, slices.BinarySearchFunc by its own loop, slices.Insert by `insert_at`.
pub mod Compare
pub mod Search
pub mod Sorted
pub mod Listing
pub mod Described
