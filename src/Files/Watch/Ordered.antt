-- ===== src/Files/Watch/Ordered.antt =====
-- flush and the order of a listing: looking up names keeps the listing sorted by its specification.
use dankgo.Prelude.{
  ℕ, zero, suc, ◌≡◌, sym, inl, inr, false, List, [], ◌∷◌, All, Option-cases, subst, Ordering,
}
use dankgo.Prelude.Text.{Bytes}
use dankgo.Files.Entry.{Entry}
use dankgo.Files.Names.{index_of, delete_at}
use dankgo.Files.Names.Lookup.{index_of-get_elem?}
use dankgo.Files.Sort.Compare.{SortSpec, compare_entries}
use dankgo.Files.Sort.Sorted.{IsSorted, is_gt}
use dankgo.Files.Sort.Listing.{
  insert_sorted, InOrder, sort_entries-InOrder, insert_sorted-sort_entries,
}
use dankgo.Files.Watch.Flush.{
  Found, absent, failed, found, Listing, resort_around, touch_absent, touch_found, touch, touch_all,
}

All-delete_at : (P : Entry → Type 0) (i : ℕ) (es : List Entry) → All P es → All P (delete_at i es)
unfolding delete_at
All-delete_at P i [] a = tt
All-delete_at P zero (e ∷ es) a = a.1
All-delete_at P (suc i) (e ∷ es) a = (a.0, All-delete_at P i es a.1)

delete_at-IsSorted :
    (c : Entry → Entry → Ordering) (i : ℕ) (es : List Entry)
    → IsSorted c es
    → IsSorted c (delete_at i es)
unfolding delete_at
delete_at-IsSorted c i [] s = tt
delete_at-IsSorted c zero (e ∷ es) s = s.1
delete_at-IsSorted c (suc i) (e ∷ es) s =
    (All-delete_at (λ y. is_gt (c e y) ≡ false) i es s.0, delete_at-IsSorted c i es s.1)

insert_sorted-InOrder :
    (es : List Entry) (e : Entry) (spec : SortSpec)
    → InOrder spec es
    → InOrder spec (insert_sorted es e spec)
insert_sorted-InOrder es e spec s =
    subst (InOrder spec) (sym (insert_sorted-sort_entries es e spec s))
      (sort_entries-InOrder (e ∷ es) spec).0

module _ (spec : SortSpec) where
  touch_found-InOrder :
      (e : Entry) (n : Bytes) (l : Listing)
      → InOrder spec l.0
      → InOrder spec (touch_found spec e l (index_of n l.0)).0
  unfolding resort_around
  touch_found-InOrder e n l s = elim (Option-cases (index_of n l.0)) [
    | inl missing ↦ rw missing (insert_sorted-InOrder l.0 e spec s)
    | inr (i, at) ↦
        let got = index_of-get_elem? n l.0 i at in
        rw (at, touch_found, got.1)
          (insert_sorted-InOrder (delete_at i l.0) _ spec
            (delete_at-IsSorted (compare_entries spec) i l.0 s))
  ]

  touch_absent-InOrder :
      (n : Bytes) (l : Listing)
      → InOrder spec l.0
      → InOrder spec (touch_absent l (index_of n l.0)).0
  touch_absent-InOrder n l s = elim (Option-cases (index_of n l.0)) [
    | inl missing ↦ rw missing s
    | inr (i, at) ↦ rw at (delete_at-IsSorted (compare_entries spec) i l.0 s)
  ]

  touch-InOrder :
      (f : Found) (n : Bytes) (l : Listing) → InOrder spec l.0 → InOrder spec (touch spec f n l).0
  unfolding touch
  touch-InOrder absent n l s = touch_absent-InOrder n l s
  touch-InOrder failed n l s = s
  touch-InOrder (found e) n l s = touch_found-InOrder e n l s

  -- From a listing in order, looking up any names again leaves a listing in order: deletions,
  -- insertions and entries that change place included.
  pub touch_all-InOrder :
      (look : Bytes → Found) (names : List Bytes) (l : Listing)
      → InOrder spec l.0
      → InOrder spec (touch_all spec look names l).0
  unfolding touch_all
  touch_all-InOrder look [] l s = s
  touch_all-InOrder look (n ∷ names) l s =
      touch_all-InOrder look names (touch spec (look n) n l) (touch-InOrder (look n) n l s)
