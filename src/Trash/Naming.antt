-- ===== src/Trash/Naming.antt =====
-- trash/trash.go: the names that uniqueName finds, and when it finds none.
use dankgo.Prelude.{
  ℕ, zero, suc, ◌+◌, ◌<◌, ◌≡◌, sym, ap, ◌∙◌, true, false, Option, none, some, arith, if◌then◌else◌,
  Bool-cases, Option-cases, inl, inr, subst,
}
use mathlib.Core.Bool.{true≢false}
use mathlib.Core.Option.{none-ne-some, some-injective}
use dankgo.Prelude.Text.{Bytes}
use dankgo.Trash.Tree.{FilePath, Fs}
use dankgo.Trash.Put.{is_taken, try_names, unique_name, candidate}

try_names-free :
    (fs : Fs) (trash : FilePath) (base name : Bytes) (left i : ℕ)
    → try_names fs trash base left i ≡ some name
    → is_taken fs trash name ≡ false
unfolding try_names
try_names-free fs trash base name zero i h = absurd (none-ne-some _ h)
try_names-free fs trash base name (suc left) i h =
    elim (Bool-cases (is_taken fs trash (candidate base i))) [
      | inl e ↦ try_names-free fs trash base name left (suc i) (rw e at h)
      | inr e ↦
          let found : some (candidate base i) ≡ some name = rw e at h in
          ap (is_taken fs trash) (sym (some-injective _ _ found)) ∙ e
    ]

first_name : Fs → FilePath → Bytes → ℕ → Option Bytes
first_name fs trash base left =
    if is_taken fs trash base then try_names fs trash base left 2 else some base

first_name-free :
    (fs : Fs) (trash : FilePath) (base name : Bytes) (left : ℕ)
    → first_name fs trash base left ≡ some name
    → is_taken fs trash name ≡ false
unfolding first_name
first_name-free fs trash base name left h = elim (Bool-cases (is_taken fs trash base)) [
  | inl e ↦ try_names-free fs trash base name left 2 (rw e at h)
  | inr e ↦
      let found : some base ≡ some name = rw e at h in
      ap (is_taken fs trash) (sym (some-injective _ _ found)) ∙ e
]

-- The name that is found is free under files and under info.
pub unique_name-free :
    (fs : Fs) (trash : FilePath) (base name : Bytes)
    → unique_name fs trash base ≡ some name
    → is_taken fs trash name ≡ false
unfolding unique_name first_name
unique_name-free fs trash base name h = first_name-free fs trash base name 99998 h

try_names-taken :
    (fs : Fs) (trash : FilePath) (base : Bytes) (left i : ℕ)
    → try_names fs trash base left i ≡ none
    → (k : ℕ) → k < left
    → is_taken fs trash (candidate base (i + k)) ≡ true
unfolding try_names
try_names-taken fs trash base zero i h k l = absurd (omega arith)
try_names-taken fs trash base (suc left) i h k l =
    elim (Bool-cases (is_taken fs trash (candidate base i))) [
      | inl e ↦ taken_at k l e (try_names-taken fs trash base left (suc i) (rw e at h))
      | inr e ↦
          let found : some (candidate base i) ≡ none = rw e at h in
          absurd (none-ne-some _ (sym found))
    ]
  where
    taken_at :
        (k : ℕ)
        → k < suc left
        → is_taken fs trash (candidate base i) ≡ true
        → ((j : ℕ) → j < left → is_taken fs trash (candidate base (suc i + j)) ≡ true)
        → is_taken fs trash (candidate base (i + k)) ≡ true
    taken_at zero l e rest =
        subst (λ x. is_taken fs trash (candidate base x) ≡ true) {x = i} {y = i + 0} (omega arith) e
    taken_at (suc j) l e rest =
        subst (λ x. is_taken fs trash (candidate base x) ≡ true) {x = suc i + j} {y = i + suc j}
          (omega arith) (rest j (omega arith))

first_name-taken :
    (fs : Fs) (trash : FilePath) (base : Bytes) (left : ℕ)
    → first_name fs trash base left ≡ none
    → (is_taken fs trash base ≡ true)
      × ((k : ℕ) → k < left → is_taken fs trash (candidate base (2 + k)) ≡ true)
unfolding first_name
first_name-taken fs trash base left h = elim (Bool-cases (is_taken fs trash base)) [
  | inl e ↦ (e, try_names-taken fs trash base left 2 (rw e at h))
  | inr e ↦ let found : some base ≡ none = rw e at h in absurd (none-ne-some _ (sym found))
]

-- Where no name is found, the base name and the candidates numbered from 2 to 99999 are all taken.
unique_name-taken :
    (fs : Fs) (trash : FilePath) (base : Bytes)
    → unique_name fs trash base ≡ none
    → (is_taken fs trash base ≡ true)
      × ((k : ℕ) → k < 99998 → is_taken fs trash (candidate base (2 + k)) ≡ true)
unfolding unique_name first_name
unique_name-taken fs trash base h = first_name-taken fs trash base 99998 h

-- Where one of the candidates numbered from 2 to 99999 is free, a name is found, and it is free under files
-- and under info.
pub unique_name-found :
    (fs : Fs) (trash : FilePath) (base : Bytes) (k : ℕ)
    → k < 99998
    → is_taken fs trash (candidate base (2 + k)) ≡ false
    → (name : Bytes) × ((unique_name fs trash base ≡ some name) × (is_taken fs trash name ≡ false))
unique_name-found fs trash base k l free = elim (Option-cases (unique_name fs trash base)) [
  | inl e ↦ absurd (true≢false (sym ((unique_name-taken fs trash base e).1 k l) ∙ free))
  | inr (name, e) ↦ (name, (e, unique_name-free fs trash base name e))
]
