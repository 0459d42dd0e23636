-- ===== src/Files/Sort/Described.antt =====
-- files/sort.go: the order of a sorted listing, told by the fields of its entries.
use mathlib.Core.List.{Perm}
use dankgo.Prelude.{
  ◌≡◌, ◌⊎◌, refl, ◌∙◌, Bool, true, false, ◌&&◌, List, [], ◌∷◌, All, arith, if◌then◌else◌, Ordering,
  inl, inr,
}
use dankgo.Prelude.Text.{compare_bytes}
use dankgo.Prelude.Int.{ℤ, compare_ℤ, eqb_ℤ, eqb_ℤ_iff}
use dankgo.Prelude.Order.{flip, or_else, eq_of_compare_bytes}
use dankgo.Files.Entry.{Entry}
use dankgo.Files.Sort.Compare.{
  SortKey, sort_name, sort_size, sort_mtime, sort_type, SortSpec, differ, compare_name, compare_by,
  compare_by-IsOrder, compare_entries,
}
use dankgo.Files.Sort.Sorted.{is_gt, IsSorted}
use dankgo.Files.Sort.Listing.{sort_entries, sort_entries-InOrder}

-- The collation key is smaller, or it is the same and the name is smaller.
abbrev pub IsNameLess : Entry → Entry → Type 0
IsNameLess a b =
    (compare_bytes a.name_key b.name_key ≡ Ordering.lt)
    ⊎ ((a.name_key ≡ b.name_key) × (compare_bytes a.name b.name ≡ Ordering.lt))

abbrev pub IsNameSame : Entry → Entry → Type 0
IsNameSame a b = (a.name_key ≡ b.name_key) × (a.name ≡ b.name)

abbrev pub IsLess : SortKey → Entry → Entry → Type 0
IsLess sort_name a b = IsNameLess a b
IsLess sort_size a b = compare_ℤ a.size b.size ≡ Ordering.lt
IsLess sort_mtime a b = compare_ℤ a.mtime_ms b.mtime_ms ≡ Ordering.lt
IsLess sort_type a b = compare_bytes a.mime b.mime ≡ Ordering.lt

abbrev pub IsSame : SortKey → Entry → Entry → Type 0
IsSame sort_name a b = IsNameSame a b
IsSame sort_size a b = a.size ≡ b.size
IsSame sort_mtime a b = a.mtime_ms ≡ b.mtime_ms
IsSame sort_type a b = a.mime ≡ b.mime

abbrev pub Turned : Bool → Type 0 → Type 0 → Type 0
Turned true up down = down
Turned false up down = up

-- A directory stands before another entry where directories come first. Otherwise the smaller key comes
-- first, or the larger one where the order is descending, and entries with the same key are in the order
-- of their names.
abbrev pub IsBefore : SortSpec → Entry → Entry → Type 0
IsBefore spec a b =
    ((spec.dirs_first ≡ true) × (a.is_dir ≡ true) × (b.is_dir ≡ false))
    ⊎ (((spec.dirs_first ≡ false) ⊎ (a.is_dir ≡ b.is_dir))
        × (Turned spec.desc (IsLess spec.key a b) (IsLess spec.key b a)
            ⊎ (IsSame spec.key a b × (IsNameLess a b ⊎ IsNameSame a b))))

-- Every entry stands before all that follow it.
abbrev pub AreInPlace : SortSpec → List Entry → Type 0
AreInPlace spec [] = Unit
AreInPlace spec (e ∷ es) = All (IsBefore spec e) es × AreInPlace spec es

compare_ℤ-same : (x y : ℤ) → compare_ℤ x y ≡ Ordering.eq → x ≡ y
compare_ℤ-same x y h = (eqb_ℤ_iff x y).0 (rw (eqb_ℤ, h) refl)

compare_name-IsNameLess : (a b : Entry) → compare_name a b ≡ Ordering.lt → IsNameLess a b
unfolding compare_name
compare_name-IsNameLess a b h = ground (arith, eq_of_compare_bytes a.name_key b.name_key)

compare_name-IsNameSame : (a b : Entry) → compare_name a b ≡ Ordering.eq → IsNameSame a b
unfolding compare_name
compare_name-IsNameSame a b h =
    ground (arith, eq_of_compare_bytes a.name_key b.name_key, eq_of_compare_bytes a.name b.name)

compare_by-IsLess : (k : SortKey) (a b : Entry) → compare_by k a b ≡ Ordering.lt → IsLess k a b
unfolding compare_by
compare_by-IsLess sort_name a b h = compare_name-IsNameLess a b h
compare_by-IsLess sort_size a b h = h
compare_by-IsLess sort_mtime a b h = h
compare_by-IsLess sort_type a b h = h

compare_by-IsSame : (k : SortKey) (a b : Entry) → compare_by k a b ≡ Ordering.eq → IsSame k a b
unfolding compare_by
compare_by-IsSame sort_name a b h = compare_name-IsNameSame a b h
compare_by-IsSame sort_size a b h = compare_ℤ-same a.size b.size h
compare_by-IsSame sort_mtime a b h = compare_ℤ-same a.mtime_ms b.mtime_ms h
compare_by-IsSame sort_type a b h = eq_of_compare_bytes a.mime b.mime h

-- The cases of the comparison, over what the outcomes stand for.
module _ {Less More Same NameLess NameSame : Type 0} where
  by_key :
      (desc : Bool) (k n : Ordering)
      → (k ≡ Ordering.lt → Less)
      → (k ≡ Ordering.eq → Same)
      → (k ≡ Ordering.gt → More)
      → (n ≡ Ordering.lt → NameLess)
      → (n ≡ Ordering.eq → NameSame)
      → is_gt (or_else (if desc then flip k else k) n) ≡ false
      → Turned desc Less More ⊎ (Same × (NameLess ⊎ NameSame))
  by_key false Ordering.lt n l s m nl ns h = inl (l refl)
  by_key true Ordering.gt n l s m nl ns h = inl (m refl)
  by_key false Ordering.eq Ordering.lt l s m nl ns h = inr (s refl, inl (nl refl))
  by_key true Ordering.eq Ordering.lt l s m nl ns h = inr (s refl, inl (nl refl))
  by_key false Ordering.eq Ordering.eq l s m nl ns h = inr (s refl, inr (ns refl))
  by_key true Ordering.eq Ordering.eq l s m nl ns h = inr (s refl, inr (ns refl))
  by_key false Ordering.eq Ordering.gt l s m nl ns h = absurd (cc)
  by_key true Ordering.eq Ordering.gt l s m nl ns h = absurd (cc)
  by_key false Ordering.gt n l s m nl ns h = absurd (cc)
  by_key true Ordering.lt n l s m nl ns h = absurd (cc)

  by_kind :
      (first desc dir other : Bool) (k n : Ordering)
      → (k ≡ Ordering.lt → Less)
      → (k ≡ Ordering.eq → Same)
      → (k ≡ Ordering.gt → More)
      → (n ≡ Ordering.lt → NameLess)
      → (n ≡ Ordering.eq → NameSame)
      → is_gt (
          if first && differ dir other
          then (if dir then Ordering.lt else Ordering.gt)
          else or_else (if desc then flip k else k) n)
        ≡ false
      → ((first ≡ true) × (dir ≡ true) × (other ≡ false))
        ⊎ (((first ≡ false) ⊎ (dir ≡ other))
            × (Turned desc Less More ⊎ (Same × (NameLess ⊎ NameSame))))
  by_kind false desc dir other k n l s m nl ns h = inr (inl refl, by_key desc k n l s m nl ns h)
  by_kind true desc true true k n l s m nl ns h = inr (inr refl, by_key desc k n l s m nl ns h)
  by_kind true desc false false k n l s m nl ns h = inr (inr refl, by_key desc k n l s m nl ns h)
  by_kind true desc true false k n l s m nl ns h = inl (refl, refl, refl)
  by_kind true desc false true k n l s m nl ns h = absurd (cc)

compare_entries-IsBefore :
    (spec : SortSpec) (a b : Entry) → is_gt (compare_entries spec a b) ≡ false → IsBefore spec a b
unfolding compare_entries
compare_entries-IsBefore spec a b h =
    by_kind spec.dirs_first spec.desc a.is_dir b.is_dir (compare_by spec.key a b) (compare_name a b)
      (compare_by-IsLess spec.key a b) (compare_by-IsSame spec.key a b)
      (λ g. compare_by-IsLess spec.key b a ((compare_by-IsOrder spec.key).swap a b ∙ (rw g refl)))
      (compare_name-IsNameLess a b) (compare_name-IsNameSame a b) h

All-IsBefore :
    (spec : SortSpec) (e : Entry) (es : List Entry)
    → All (λ y. is_gt (compare_entries spec e y) ≡ false) es
    → All (IsBefore spec e) es
All-IsBefore spec e [] h = tt
All-IsBefore spec e (x ∷ xs) (h, hs) =
    (compare_entries-IsBefore spec e x h, All-IsBefore spec e xs hs)

IsSorted-AreInPlace :
    (spec : SortSpec) (es : List Entry) → IsSorted (compare_entries spec) es → AreInPlace spec es
IsSorted-AreInPlace spec [] s = tt
IsSorted-AreInPlace spec (e ∷ es) (s, ss) =
    (All-IsBefore spec e es s, IsSorted-AreInPlace spec es ss)

-- Sorting a listing neither loses nor adds an entry, and puts each before all that follow it: directories
-- before other entries where they come first; among entries of one kind, or where directories do not come
-- first, the smaller size, time, type or name before the larger, the other way round where the order is
-- descending; and entries that are the same there by their collation keys and names, always ascending.
pub sort_entries-AreInPlace :
    (entries : List Entry) (spec : SortSpec)
    → AreInPlace spec (sort_entries entries spec) × Perm (sort_entries entries spec) entries
sort_entries-AreInPlace entries spec =
    let sorted = sort_entries-InOrder entries spec in
    (IsSorted-AreInPlace spec (sort_entries entries spec) sorted.0, sorted.1)
