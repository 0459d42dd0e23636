-- ===== src/Files/Count.antt =====
-- files/count.go: the number of a directory's children, and the cache of these numbers. What f.ReadDir
-- returns is an argument: the batches without an error, and the last one with io.EOF or another error. Times
-- are not negative.
mod Samples
use dankgo.Prelude.{
  ℕ, zero, suc, ◌+◌, ◌≤◌, ◌≡◌, refl, sym, ap, ◌∙◌, Bool, true, false, not, ◌&&◌, ◌||◌, Option, none,
  some, List, [], ◌∷◌, ◌++◌, if◌then◌else◌, leb, ltb, ◌==◌, arith, Bool-cases, inl, inr, ◌⊎◌, ◌<◌,
  subst, length,
}
use dankgo.Prelude.Text.{Bytes, codes, eqb, eqb_iff, has_prefix}
use dankgo.Files.Errors.{Code, FileError, code_of, code_from_os, wrap}

abbrev pub count_cap : ℕ
count_cap = 10000

pub record Count : Type 0 where
  pub count : ℕ
  pub capped : Bool
  pub code : Option Code

pub record Reading : Type 0 where
  pub batches : List (List Bytes)
  pub last : List Bytes
  pub failure : Option FileError

abbrev is_counted : Bool → Bytes → Bool
is_counted include_hidden name = include_hidden || not (has_prefix name (codes "."))

-- The loop over a batch.
unfoldable pub count_batch : Bool → ℕ → List Bytes → ℕ
unfolding has_prefix
count_batch include_hidden total [] = total
count_batch include_hidden total (name ∷ names) =
    count_batch include_hidden (if is_counted include_hidden name then suc total else total) names

abbrev code_of_wrapped : Option FileError → Option Code
code_of_wrapped none = none
code_of_wrapped (some e) = some (code_of e)

-- The loop over the batches.
unfoldable pub count_batches : Bool → Bytes → ℕ → Reading → List (List Bytes) → Count
unfolding count_batch wrap code_of
count_batches include_hidden path total r [] =
    if leb total count_cap
    then record {
      count = count_batch include_hidden total r.last;
      capped = false;
      code = code_of_wrapped (wrap path r.failure);
    }
    else record { count = count_cap; capped = true; code = none }
count_batches include_hidden path total r (names ∷ batches) =
    let rest =
      count_batches include_hidden path (count_batch include_hidden total names) r batches in
    if leb total count_cap then rest else record { count = count_cap; capped = true; code = none }

abbrev count_opened : Bool → Bytes → FileError ⊎ Reading → Count
count_opened include_hidden path (inl e) = record {
  count = 0;
  capped = false;
  code = code_of_wrapped (wrap path (some e));
}
count_opened include_hidden path (inr r) = count_batches include_hidden path 0 r r.batches

unfoldable pub count_children : Bytes → Bool → FileError ⊎ Reading → Count
unfolding count_batches wrap code_of
count_children path include_hidden opened = count_opened include_hidden path opened

pub record CountEntry : Type 0 where
  pub mtime_ms : ℕ
  pub cached_count : Count

-- The entries of the map, each path once.
abbrev pub CountCache : Type 0
CountCache = List (Bytes × CountEntry)

abbrev fresh_count : ℕ → CountEntry → Option Count
fresh_count mtime e = if e.mtime_ms == mtime then some e.cached_count else none

unfoldable pub get : CountCache → Bytes → ℕ → Option Count
unfolding eqb
get [] path mtime = none
get ((k, e) ∷ c) path mtime = if eqb k path then fresh_count mtime e else get c path mtime

abbrev store : Bytes → CountEntry → CountCache → CountCache
store path e [] = (path, e) ∷ []
store path e ((k, old) ∷ c) =
    let rest = store path e c in if eqb k path then (k, e) ∷ c else (k, old) ∷ rest

unfoldable pub put : Bytes → ℕ → Count → CountCache → CountCache
unfolding eqb
put path mtime n c =
    store path (record { mtime_ms = mtime; cached_count = n })
      (if leb 512 (length c) then [] else c)

-- The names that count, over all batches.
abbrev pub visible : Bool → List Bytes → ℕ
visible include_hidden [] = 0
visible include_hidden (name ∷ names) =
    (if is_counted include_hidden name then 1 else 0) + visible include_hidden names

abbrev pub all_visible : Bool → List (List Bytes) → ℕ
all_visible include_hidden [] = 0
all_visible include_hidden (names ∷ batches) =
    visible include_hidden names + all_visible include_hidden batches

count_batch-visible :
    (hidden : Bool) (total : ℕ) (names : List Bytes)
    → count_batch hidden total names ≡ total + visible hidden names
unfolding count_batch
count_batch-visible hidden total [] = omega arith
count_batch-visible hidden total (name ∷ names) =
    count_batch-visible hidden (if is_counted hidden name then suc total else total) names
    ∙ split (is_counted hidden name) (visible hidden names)
  where
    split :
        (b : Bool) (v : ℕ)
        → (if b then suc total else total) + v ≡ total + ((if b then 1 else 0) + v)
    split true v = omega arith
    split false v = omega arith

-- The number that the loops are to find.
abbrev pub expected : Bool → Bytes → ℕ → Reading → Count
expected hidden path total r =
    if leb total count_cap
    then record {
      count = total + visible hidden r.last;
      capped = false;
      code = code_of_wrapped (wrap path r.failure);
    }
    else record { count = count_cap; capped = true; code = none }

over_cap : (total v : ℕ) → leb total count_cap ≡ false → leb (total + v) count_cap ≡ false
over_cap total v h = ground arith

count_batches-expected :
    (hidden : Bool) (path : Bytes) (total : ℕ) (r : Reading) (batches : List (List Bytes))
    → count_batches hidden path total r batches
      ≡ expected hidden path (total + all_visible hidden batches) r
unfolding count_batches
count_batches-expected hidden path total r [] =
    ap (λ n. expected_at n) (count_batch-visible hidden total r.last)
    ∙ ap (λ t. expected hidden path t r) (omega arith)
  where
    expected_at : ℕ → Count
    expected_at n =
        if leb total count_cap
        then record { count = n; capped = false; code = code_of_wrapped (wrap path r.failure) }
        else record { count = count_cap; capped = true; code = none }
count_batches-expected hidden path total r (names ∷ batches) =
    let ih = count_batches-expected hidden path (count_batch hidden total names) r batches in
    let whole : count_batch hidden total names + all_visible hidden batches
        ≡ total + (visible hidden names + all_visible hidden batches) =
      omega (arith, count_batch-visible hidden total names) in
    elim (Bool-cases (leb total count_cap)) [
      | inl h ↦ rw h (ih ∙ ap (λ t. expected hidden path t r) whole)
      | inr h ↦ rw (h, over_cap total (visible hidden names + all_visible hidden batches) h) refl
    ]

-- At a directory that can be read, the children that count are counted exactly while those of the batches
-- before the last are at most 10000, with the code of the failure if there is one; past that the answer is
-- 10000 and says that it is capped. The number never exceeds 10000 and what the last batch has.
pub count_children-expected :
    (path : Bytes) (include_hidden : Bool) (r : Reading)
    → (count_children path include_hidden (inr r)
        ≡ expected include_hidden path (all_visible include_hidden r.batches) r)
      × ((count_children path include_hidden (inr r)).count
          ≤ count_cap + visible include_hidden r.last)
unfolding count_children
count_children-expected path hidden r =
    let e : count_batches hidden path 0 r r.batches
        ≡ expected hidden path (all_visible hidden r.batches) r =
      count_batches-expected hidden path 0 r r.batches
      ∙ ap (λ t. expected hidden path t r) (omega arith) in
    (
      e,
      subst (λ (c : Count). c.count ≤ count_cap + visible hidden r.last) (sym e)
          (bounded (all_visible hidden r.batches)),
    )
  where
    bounded : (total : ℕ) → (expected hidden path total r).count ≤ count_cap + visible hidden r.last
    bounded total = elim (Bool-cases (leb total count_cap)) [
      | inl h ↦ rw h (ground arith)
      | inr h ↦ rw h (omega arith)
    ]

length-store :
    (path : Bytes) (e : CountEntry) (c : CountCache) → length (store path e c) ≤ suc (length c)
length-store path e [] = omega arith
length-store path e ((k, old) ∷ c) =
    let ih = length-store path e c in
    elim (Bool-cases (eqb k path)) [ inl h ↦ rw h (omega arith) | inr h ↦ rw h (omega arith) ]

-- The cache never holds more than 512 paths.
length-put :
    (path : Bytes) (mtime : ℕ) (n : Count) (c : CountCache) → length (put path mtime n c) ≤ 512
unfolding put
length-put path mtime n c = elim (Bool-cases (leb 512 (length c))) [
  | inl h ↦ rw h (omega arith)
  | inr h ↦
      let room : length c < 512 = ground arith in
      rw h (omega (arith, length-store path (record { mtime_ms = mtime; cached_count = n }) c))
]
