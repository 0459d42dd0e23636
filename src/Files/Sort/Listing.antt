-- ===== src/Files/Sort/Listing.antt =====
-- files/sort.go: sortEntries and insertSorted.
use mathlib.Core.List.{Perm}
use dankgo.Prelude.{◌≡◌, List, ◌∷◌}
use dankgo.Files.Entry.{Entry}
use dankgo.Files.Sort.Compare.{SortSpec, compare_entries, compare_entries-IsOrder}
use dankgo.Files.Sort.Sorted.{
  sort_stable, insert_searched, IsSorted, sort_stable-IsSorted, sort_stable-perm,
  insert_searched-sort_stable,
}

unfoldable pub sort_entries : List Entry → SortSpec → List Entry
sort_entries entries spec = sort_stable (compare_entries spec) entries

unfoldable pub insert_sorted : List Entry → Entry → SortSpec → List Entry
insert_sorted entries e spec = insert_searched (compare_entries spec) entries e

-- The listing is in the order of the sort specification.
abbrev pub InOrder : SortSpec → List Entry → Type 0
InOrder spec = IsSorted (compare_entries spec)

-- Sorting puts the entries in order and neither loses nor adds one.
pub sort_entries-InOrder :
    (entries : List Entry) (spec : SortSpec)
    → InOrder spec (sort_entries entries spec) × Perm (sort_entries entries spec) entries
unfolding sort_entries
sort_entries-InOrder entries spec = (
  sort_stable-IsSorted (compare_entries-IsOrder spec) entries,
  sort_stable-perm (compare_entries spec) entries,
)

-- Binary search and insertion into a listing in order is the sort of the longer listing.
pub insert_sorted-sort_entries :
    (entries : List Entry) (e : Entry) (spec : SortSpec)
    → InOrder spec entries
    → insert_sorted entries e spec ≡ sort_entries (e ∷ entries) spec
unfolding insert_sorted sort_entries
insert_sorted-sort_entries entries e spec s =
    insert_searched-sort_stable (compare_entries-IsOrder spec) entries e s
