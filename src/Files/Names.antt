-- ===== src/Files/Names.antt =====
-- Listings by name: positions, deletion, and the names as they are looked up.
pub mod Lookup
use dankgo.Prelude.{
  ℕ, zero, suc, ◌≡◌, refl, Bool, true, false, not, ◌&&◌, ◌||◌, Option, none, some, List, [], ◌∷◌,
  ◌++◌, arith, map, if◌then◌else◌, keep, any, All, take, drop,
}
use dankgo.Prelude.Text.{Bytes, eqb}
use dankgo.Files.Entry.{Entry}

-- namesOf
unfoldable pub names_of : List Entry → List Bytes
names_of [] = []
names_of (e ∷ es) = e.name ∷ names_of es

-- A map[string]bool that a loop fills with `true`, as the list of its keys.
unfoldable pub has : List Bytes → Bytes → Bool
has [] n = false
has (m ∷ ms) n = eqb m n || has ms n

abbrev next_index : Option ℕ → Option ℕ
next_index none = none
next_index (some i) = some (suc i)

-- slices.IndexFunc with the test on the name; `none` for -1.
unfoldable pub index_of : Bytes → List Entry → Option ℕ
index_of n [] = none
index_of n (e ∷ es) =
    let rest = next_index (index_of n es) in if eqb e.name n then some zero else rest

-- slices.Delete(entries, index, index + 1)
unfoldable pub delete_at : ℕ → List Entry → List Entry
delete_at i [] = []
delete_at zero (e ∷ es) = es
delete_at (suc i) (e ∷ es) = e ∷ delete_at i es

-- No entry has this name.
abbrev pub Lacks : Bytes → List Entry → Type 0
Lacks n = All (λ e. eqb e.name n ≡ false)

-- No two entries share a name, as the names of one directory.
abbrev pub IsUnique : List Entry → Type 0
IsUnique [] = Unit
IsUnique (e ∷ es) = Lacks e.name es × IsUnique es
