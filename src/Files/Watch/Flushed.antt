-- ===== src/Files/Watch/Flushed.antt =====
-- flush: names stay unique, untouched entries stay, and the batch leads from view to view.
use dankgo.Prelude.{
  ◌≡◌, refl, sym, ap, ◌∙◌, inl, inr, Bool, true, false, List, [], ◌∷◌, arith, keep, All,
  Option-cases,
}
use dankgo.Prelude.Text.{Bytes, eqb, eqb_iff, eqb_refl}
use dankgo.Files.Entry.{Entry}
use dankgo.Files.Names.{has, names_of, index_of, delete_at, Lacks, IsUnique}
use dankgo.Files.Names.Lookup.{
  has-eqb, keep-insert_at, keep-delete_at, index_of-none, index_of-get_elem?, delete_at-IsUnique,
  Lacks-delete_self, insert_at-IsUnique, keep-IsUnique, Lacks-eqb, keep_comm,
}
use dankgo.Files.Filter.{Patterns, visible, filter_view, filter_view-visible}
use dankgo.Files.Sort.Compare.{SortSpec}
use dankgo.Files.Sort.Sorted.{insert_searched}
use dankgo.Files.Sort.Listing.{insert_sorted}
use dankgo.Files.Watch.Batch.{replay}
use dankgo.Files.Watch.Diff.{diff}
use dankgo.Files.Watch.Flush.{
  Found, absent, failed, found, Listing, carry_thumbnail, resort_around, touch_absent, touch_found,
  touch, touch_all,
}
use dankgo.Files.Watch.Replay.Update.{untouched}
use dankgo.Files.Watch.Replay.View.{replay-diff}

-- builder.entry gives the entry the name that it is asked for.
abbrev pub IsNamed : (Bytes → Found) → Type 0
IsNamed look = (n : Bytes) (e : Entry) → look n ≡ found e → e.name ≡ n

insert_sorted-keep :
    (q : Entry → Bool) (es : List Entry) (e : Entry) (spec : SortSpec)
    → q e ≡ false
    → keep q (insert_sorted es e spec) ≡ keep q es
unfolding insert_sorted insert_searched
insert_sorted-keep q es e spec h = keep-insert_at q _ e es h

insert_sorted-IsUnique :
    (es : List Entry) (e : Entry) (spec : SortSpec)
    → Lacks e.name es
    → IsUnique es
    → IsUnique (insert_sorted es e spec)
unfolding insert_sorted insert_searched
insert_sorted-IsUnique es e spec l u = insert_at-IsUnique _ e es l u

module _ (spec : SortSpec) (n : Bytes) (l : Listing) where
  touch_found-keep :
      (e : Entry) (q : Entry → Bool)
      → e.name ≡ n
      → ((x : Entry) → eqb x.name n ≡ true → q x ≡ false)
      → keep q (touch_found spec e l (index_of n l.0)).0 ≡ keep q l.0
  unfolding resort_around
  touch_found-keep e q named off = elim (Option-cases (index_of n l.0)) [
    | inl missing ↦
        rw missing (insert_sorted-keep q l.0 e spec (off e ((eqb_iff e.name n).1 named)))
    | inr (i, at) ↦
        let got = index_of-get_elem? n l.0 i at in
        let e' = record e { thumbnail = carry_thumbnail got.0 e } in
        rw (at, touch_found, got.1)
          (insert_sorted-keep q (delete_at i l.0) e' spec (off e' ((eqb_iff e.name n).1 named))
            ∙ keep-delete_at n q off l.0 i at)
  ]

  touch_found-IsUnique :
      (e : Entry) → e.name ≡ n → IsUnique l.0 → IsUnique (touch_found spec e l (index_of n l.0)).0
  unfolding resort_around
  touch_found-IsUnique e named u = elim (Option-cases (index_of n l.0)) [
    | inl missing ↦ rw missing (
        insert_sorted-IsUnique l.0 e spec
          (Lacks-eqb n e.name l.0 ((eqb_iff n e.name).1 (sym named)) (index_of-none n l.0 missing))
          u)
    | inr (i, at) ↦
        let got = index_of-get_elem? n l.0 i at in
        let e' = record e { thumbnail = carry_thumbnail got.0 e } in
        rw (at, touch_found, got.1)
          (insert_sorted-IsUnique (delete_at i l.0) e' spec
            (Lacks-eqb n e.name (delete_at i l.0) ((eqb_iff n e.name).1 (sym named))
              (Lacks-delete_self n l.0 i u at))
            (delete_at-IsUnique i l.0 u))
  ]

  touch_absent-keep :
      (q : Entry → Bool)
      → ((x : Entry) → eqb x.name n ≡ true → q x ≡ false)
      → keep q (touch_absent l (index_of n l.0)).0 ≡ keep q l.0
  touch_absent-keep q off = elim (Option-cases (index_of n l.0)) [
    | inl missing ↦ rw missing
    | inr (i, at) ↦ rw at (keep-delete_at n q off l.0 i at)
  ]

  touch_absent-IsUnique : IsUnique l.0 → IsUnique (touch_absent l (index_of n l.0)).0
  touch_absent-IsUnique u = elim (Option-cases (index_of n l.0)) [
    | inl missing ↦ rw missing u
    | inr (i, at) ↦ rw at (delete_at-IsUnique i l.0 u)
  ]

touch-keep :
    (spec : SortSpec) (f : Found) (n : Bytes) (l : Listing) (q : Entry → Bool)
    → ((e : Entry) → f ≡ found e → e.name ≡ n)
    → ((x : Entry) → eqb x.name n ≡ true → q x ≡ false)
    → keep q (touch spec f n l).0 ≡ keep q l.0
unfolding touch
touch-keep spec absent n l q named off = touch_absent-keep spec n l q off
touch-keep spec failed n l q named off = refl
touch-keep spec (found e) n l q named off = touch_found-keep spec n l e q (named e refl) off

touch-IsUnique :
    (spec : SortSpec) (f : Found) (n : Bytes) (l : Listing)
    → ((e : Entry) → f ≡ found e → e.name ≡ n)
    → IsUnique l.0
    → IsUnique (touch spec f n l).0
unfolding touch
touch-IsUnique spec absent n l named u = touch_absent-IsUnique spec n l u
touch-IsUnique spec failed n l named u = u
touch-IsUnique spec (found e) n l named u = touch_found-IsUnique spec n l e (named e refl) u

module _ (spec : SortSpec) (look : Bytes → Found) (named : IsNamed look) where
  touch_all-keep :
      (touched names : List Bytes) (l : Listing)
      → All (λ n. has touched n ≡ true) names
      → keep (untouched touched) (touch_all spec look names l).0 ≡ keep (untouched touched) l.0
  unfolding touch_all
  touch_all-keep touched [] l h = refl
  touch_all-keep touched (n ∷ names) l (h, hs) =
      touch_all-keep touched names (touch spec (look n) n l) hs
      ∙ touch-keep spec (look n) n l (untouched touched) (named n)
          (λ x same. ground (arith, has-eqb touched x.name n same))

  -- Names stay unique.
  pub touch_all-IsUnique :
      (names : List Bytes) (l : Listing) → IsUnique l.0 → IsUnique (touch_all spec look names l).0
  unfolding touch_all
  touch_all-IsUnique [] l u = u
  touch_all-IsUnique (n ∷ names) l u =
      touch_all-IsUnique names (touch spec (look n) n l)
        (touch-IsUnique spec (look n) n l (named n) u)

All-has-weaken :
    (m : Bytes) (ms ns : List Bytes)
    → All (λ n. has ms n ≡ true) ns
    → All (λ n. has (m ∷ ms) n ≡ true) ns
unfolding has
All-has-weaken m ms [] h = tt
All-has-weaken m ms (n ∷ ns) (h, hs) = (ground arith, All-has-weaken m ms ns hs)

All-has : (ns : List Bytes) → All (λ n. has ns n ≡ true) ns
unfolding has
All-has [] = tt
All-has (n ∷ ns) = (ground (arith, eqb_refl n), All-has-weaken n ns ns (All-has ns))

module _ (g : Patterns) (spec : SortSpec) (look : Bytes → Found) (named : IsNamed look)
    (include_hidden : Bool) (filters : List Bytes) where
  -- The batch between the views before and after the names were looked up leads from one to the
  -- other.
  pub replay-touch_all :
      (names : List Bytes) (entries : List Entry)
      → IsUnique entries
      → replay
          (diff
            (names_of (filter_view g entries include_hidden filters))
            names
            (filter_view g (touch_all spec look names (entries, [])).0 include_hidden filters))
          (filter_view g entries include_hidden filters)
        ≡ filter_view g (touch_all spec look names (entries, [])).0 include_hidden filters
  replay-touch_all names entries u =
      let after = (touch_all spec look names (entries, [])).0 in
      let shows = visible g include_hidden filters in
      rw
        (
          filter_view-visible g entries include_hidden filters,
          filter_view-visible g after include_hidden filters,
        )
        (replay-diff (keep shows entries) (keep shows after) names (keep-IsUnique shows entries u)
          (keep-IsUnique shows after (touch_all-IsUnique spec look named names (entries, []) u))
          (keep_comm (untouched names) shows entries
            ∙ (ap (keep shows)
                  (sym (touch_all-keep spec look named names names (entries, []) (All-has names)))
                ∙ keep_comm shows (untouched names) after)))
