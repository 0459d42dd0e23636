-- ===== src/Files/Watch/Diff.antt =====
-- files/watch.go: diff, the batch between the names shown before and the view shown now.
use dankgo.Prelude.{
  ℕ, zero, suc, Bool, true, not, ◌&&◌, Option, none, some, List, [], ◌∷◌, ◌++◌, if◌then◌else◌, leb,
}
use dankgo.Prelude.Text.{Bytes, eqb}
use dankgo.Files.Entry.{Entry}
use dankgo.Files.Names.{has}
use dankgo.Files.Watch.Batch.{Batch, batch_kind, empty_batch}

-- The map `at` after its loop: the last index of each name.
unfoldable pub position : Bytes → List Entry → Option ℕ
position n [] = none
position n (e ∷ es) = elim (position n es) [
  | some i ↦ some (suc i)
  | none ↦ if eqb e.name n then some zero else none
]

pub record Scan : Type 0 where
  pub removed : List Bytes
  pub existed : List Bytes
  pub in_order : Bool

abbrev pub scan_step : Bytes → ℕ → Scan → Option ℕ → Scan
scan_step n next rest none = record rest { removed = n ∷ rest.removed }
scan_step n next rest (some i) = record rest {
  existed = n ∷ rest.existed;
  in_order = leb next i && rest.in_order;
}

abbrev pub next_of : ℕ → Option ℕ → ℕ
next_of next none = next
next_of next (some i) = suc i

-- The loop over the names before; `next` is `last + 1`.
unfoldable pub scan_before : List Entry → List Bytes → ℕ → Scan
scan_before view [] next = record { removed = []; existed = []; in_order = true }
scan_before view (n ∷ ns) next =
    scan_step n next (scan_before view ns (next_of next (position n view))) (position n view)

-- The loop over the view, from this index on.
unfoldable pub scan_view : List Bytes → List Bytes → Bool → ℕ → List Entry → Batch
scan_view existed touched in_order i [] = empty_batch batch_kind
scan_view existed touched in_order i (e ∷ es) =
    let rest = scan_view existed touched in_order (suc i) es in
    if not (has existed e.name)
    then record rest { added = e ∷ rest.added; added_at = i ∷ rest.added_at }
    else if not (has touched e.name)
    then rest
    else if in_order
    then record rest { changed = e ∷ rest.changed }
    else record rest {
      removed = e.name ∷ rest.removed;
      added = e ∷ rest.added;
      added_at = i ∷ rest.added_at;
    }

unfoldable pub diff : List Bytes → List Bytes → List Entry → Batch
unfolding position scan_before scan_view
diff before touched view =
    let scan = scan_before view before 0 in
    let changes = scan_view scan.existed touched scan.in_order 0 view in
    record changes { removed = scan.removed ++ changes.removed }
