-- ===== src/Files/Sort/Compare.antt =====
-- files/sort.go: the comparison of two entries, and that it is a total preorder.
use dankgo.Prelude.{◌≡◌, Bool, true, false, ◌&&◌, arith, if◌then◌else◌, Ordering, fun_ext, subst}
use dankgo.Prelude.Text.{compare_bytes}
use dankgo.Prelude.Int.{compare_ℤ}
use dankgo.Prelude.Order.{
  flip, or_else, IsOrder, or_else-IsOrder, flip-IsOrder, on-IsOrder, compare_ℤ-IsOrder,
  compare_bytes-IsOrder, eq_of_compare_bytes,
}
use dankgo.Files.Entry.{Entry}

pub data SortKey : Type 0 where
  sort_name sort_size sort_mtime sort_type : SortKey

pub record SortSpec : Type 0 where
  pub key : SortKey
  pub desc : Bool
  pub dirs_first : Bool

unfoldable pub compare_name : Entry → Entry → Ordering
compare_name a b = or_else (compare_bytes a.name_key b.name_key) (compare_bytes a.name b.name)

unfoldable pub compare_by : SortKey → Entry → Entry → Ordering
unfolding compare_name
compare_by sort_size a b = compare_ℤ a.size b.size
compare_by sort_mtime a b = compare_ℤ a.mtime_ms b.mtime_ms
compare_by sort_type a b = compare_bytes a.mime b.mime
compare_by sort_name a b = compare_name a b

abbrev pub differ : Bool → Bool → Bool
differ true b = if b then false else true
differ false b = b

-- The comparison that sortEntries and insertSorted pass to the slices package.
unfoldable pub compare_entries : SortSpec → Entry → Entry → Ordering
unfolding compare_by
compare_entries spec a b =
    if spec.dirs_first && differ a.is_dir b.is_dir
    then (if a.is_dir then Ordering.lt else Ordering.gt)
    else or_else (if spec.desc then flip (compare_by spec.key a b) else compare_by spec.key a b)
        (compare_name a b)

compare_name-IsOrder : IsOrder compare_name
unfolding compare_name
compare_name-IsOrder =
    or_else-IsOrder (on-IsOrder compare_bytes-IsOrder (λ (e : Entry). e.name_key))
      (on-IsOrder compare_bytes-IsOrder (λ (e : Entry). e.name))

pub compare_by-IsOrder : (k : SortKey) → IsOrder (compare_by k)
unfolding compare_by
compare_by-IsOrder sort_size = on-IsOrder compare_ℤ-IsOrder (λ (e : Entry). e.size)
compare_by-IsOrder sort_mtime = on-IsOrder compare_ℤ-IsOrder (λ (e : Entry). e.mtime_ms)
compare_by-IsOrder sort_type = on-IsOrder compare_bytes-IsOrder (λ (e : Entry). e.mime)
compare_by-IsOrder sort_name = compare_name-IsOrder

-- Directories first, as a comparison of its own.
dirs : Bool → Entry → Entry → Ordering
dirs first a b =
    if first && differ a.is_dir b.is_dir
    then (if a.is_dir then Ordering.lt else Ordering.gt)
    else Ordering.eq

dirs-IsOrder : (first : Bool) → IsOrder (dirs first)
unfolding dirs
dirs-IsOrder first = record {
  swap = λ a b. ground arith;
  eq_left = λ a b d h. ground arith;
  lt_trans = λ a b d h k. ground arith;
}

directed : Bool → SortKey → Entry → Entry → Ordering
directed desc k a b = if desc then flip (compare_by k a b) else compare_by k a b

directed-IsOrder : (desc : Bool) (k : SortKey) → IsOrder (directed desc k)
unfolding directed
directed-IsOrder true k = flip-IsOrder (compare_by-IsOrder k)
directed-IsOrder false k = compare_by-IsOrder k

compare_entries_parts :
    (spec : SortSpec) (a b : Entry)
    → or_else
        (dirs spec.dirs_first a b)
        (or_else (directed spec.desc spec.key a b) (compare_name a b))
      ≡ compare_entries spec a b
unfolding compare_entries dirs directed
compare_entries_parts spec a b = ground arith

-- The comparison of a listing is a total preorder, for every sort specification.
pub compare_entries-IsOrder : (spec : SortSpec) → IsOrder (compare_entries spec)
compare_entries-IsOrder spec =
    subst IsOrder (fun_ext (λ a. fun_ext (λ b. compare_entries_parts spec a b))) (
      or_else-IsOrder (dirs-IsOrder spec.dirs_first)
        (or_else-IsOrder (directed-IsOrder spec.desc spec.key) compare_name-IsOrder))

-- Two entries that compare as equal have the same name: the order of a listing has no ties.
pub compare_entries-eq_name :
    (spec : SortSpec) (a b : Entry) → compare_entries spec a b ≡ Ordering.eq → a.name ≡ b.name
unfolding compare_entries compare_name
compare_entries-eq_name spec a b h = ground (arith, eq_of_compare_bytes a.name b.name)

-- With directories first, a directory comes before a file under every key and direction.
pub compare_entries-dir_first :
    (spec : SortSpec) (a b : Entry)
    → spec.dirs_first ≡ true
    → a.is_dir ≡ true
    → b.is_dir ≡ false
    → compare_entries spec a b ≡ Ordering.lt
unfolding compare_entries
compare_entries-dir_first spec a b h k l = ground arith
