-- ===== src/Files/Watch/Replay/Removal.antt =====
-- Removing names from a listing with unique names, and what a client then changes by name.
use dankgo.Prelude.{
  ◌≡◌, refl, sym, ap, ◌∙◌, inl, inr, Bool, true, not, ◌&&◌, ◌||◌, List, [], ◌∷◌, ◌++◌, arith, keep,
  All, Bool-cases,
}
use dankgo.Prelude.Text.{Bytes, eqb, eqb_iff, eqb_refl}
use dankgo.Files.Entry.{Entry}
use dankgo.Files.Names.{has, names_of, index_of, delete_at, Lacks, IsUnique}
use dankgo.Files.Names.Lookup.{eqb_comm, keep-IsUnique}
use dankgo.Files.Watch.Batch.{remove_name, remove_names}
use dankgo.Files.Watch.Replay.Order.{named_in, keep_congr}

pub keep-keep {ℓ} :
    {A : Type ℓ} (p q : A → Bool) (xs : List A) → keep p (keep q xs) ≡ keep (λ x. q x && p x) xs
keep-keep p q [] = refl
keep-keep p q (x ∷ xs) = ground (arith, keep-keep p q xs)

pub keep-All {ℓ} :
    {A : Type ℓ} (p : A → Bool) (xs : List A) → All (λ x. p x ≡ true) xs → keep p xs ≡ xs
keep-All p [] h = refl
keep-All p (x ∷ xs) (h, hs) = ground (arith, keep-All p xs hs)

keep-Lacks : (n : Bytes) (es : List Entry) → Lacks n es → keep (λ e. not (eqb n e.name)) es ≡ es
keep-Lacks n [] h = refl
keep-Lacks n (e ∷ es) (h, hs) = ground (arith, eqb_comm e.name n, keep-Lacks n es hs)

remove_name-keep :
    (n : Bytes) (es : List Entry)
    → IsUnique es
    → remove_name n es ≡ keep (λ e. not (eqb n e.name)) es
unfolding remove_name index_of delete_at
remove_name-keep n [] u = refl
remove_name-keep n (e ∷ es) u = elim (Bool-cases (eqb e.name n)) [
  | inl here ↦ ground (arith, eqb_comm e.name n, eqb_iff e.name n, keep-Lacks e.name es u.0)
  | inr other ↦ ground (arith, eqb_comm e.name n, remove_name-keep n es u.1)
]

-- Removing a list of names keeps the entries whose names are not in the list.
pub remove_names-keep :
    (ns : List Bytes) (es : List Entry)
    → IsUnique es
    → remove_names ns es ≡ keep (λ e. not (has ns e.name)) es
unfolding remove_names has
remove_names-keep [] es u = sym (keep-All _ es (all_true es))
  where
    all_true : (xs : List Entry) → All (λ x. true ≡ true) xs
    all_true [] = tt
    all_true (x ∷ xs) = (refl, all_true xs)
remove_names-keep (n ∷ ns) es u = rw (remove_name-keep n es u) (
    remove_names-keep ns _ (keep-IsUnique _ es u)
    ∙ (keep-keep _ _ es ∙ keep_congr _ _ es (same es)))
  where
    same :
        (xs : List Entry)
        → All
            (λ e. (not (eqb n e.name) && not (has ns e.name)) ≡ not (eqb n e.name || has ns e.name))
            xs
    same [] = tt
    same (x ∷ xs) = (ground arith, same xs)

pub has-append : (as' bs : List Bytes) (n : Bytes) → has (as' ++ bs) n ≡ (has as' n || has bs n)
unfolding has
has-append [] bs n = refl
has-append (a ∷ as') bs n = ground (arith, has-append as' bs n)

-- A test on names, put to the names of the entries that pass it.
pub has-names_of-keep :
    (r : Bytes → Bool) (es : List Entry) (n : Bytes)
    → has (names_of (keep (λ e. r e.name) es)) n ≡ (has (names_of es) n && r n)
unfolding has names_of
has-names_of-keep r [] n = refl
has-names_of-keep r (e ∷ es) n = elim (Bool-cases (eqb e.name n)) [
  | inl same ↦ ground (arith, ap r ((eqb_iff e.name n).0 same), has-names_of-keep r es n)
  | inr other ↦ ground (arith, has-names_of-keep r es n)
]

-- Every entry has a name among the names of its own listing.
named_in-weaken :
    (x : Entry) (es xs : List Entry)
    → All (λ e. named_in es e ≡ true) xs
    → All (λ e. named_in (x ∷ es) e ≡ true) xs
unfolding has names_of
named_in-weaken x es [] h = tt
named_in-weaken x es (y ∷ ys) (h, hs) = (ground arith, named_in-weaken x es ys hs)

pub named_in_self : (es : List Entry) → All (λ e. named_in es e ≡ true) es
unfolding has names_of
named_in_self [] = tt
named_in_self (e ∷ es) =
    (ground (arith, eqb_refl e.name), named_in-weaken e es es (named_in_self es))

pub All-keep {ℓ κ} :
    {A : Type ℓ} (P : A → Type κ) (q : A → Bool) (xs : List A)
    → All P xs
    → All (λ x. P x × (q x ≡ true)) (keep q xs)
All-keep P q [] h = tt
All-keep P q (x ∷ xs) (h, hs) = elim (Bool-cases (q x)) [
  | inl pass ↦ rw pass ((h, pass), All-keep P q xs hs)
  | inr fail ↦ rw fail (All-keep P q xs hs)
]
