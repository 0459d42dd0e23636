-- ===== src/Trash/Cleared.antt =====
-- trash/trash.go: how emptyOne clears a directory.
use dankgo.Prelude.{
  ◌≡◌, refl, sym, ap, ◌∙◌, Bool, true, false, not, ◌&&◌, Option, none, some, List, [], ◌∷◌, ◌++◌,
  append_assoc, Bool-cases, Option-cases, inl, inr,
}
use mathlib.Core.Option.{none-ne-some, some-injective}
use dankgo.Prelude.Text.{Bytes, eqb, eqb_iff}
use dankgo.Prelude.Members.{contains}
use dankgo.Trash.Tree.{FilePath, Fs, same, same_iff, below}
use dankgo.Trash.Safety.{below-append}
use dankgo.Trash.Stored.{below_sound}
use dankgo.Trash.Empty.{
  ReadDir, Removal, removed_at, remove_all, Emptied, remove_each, remove_listed, without_sizes,
}

-- What is not below a directory is not below what the directory has.
pub below-higher : (n : Bytes) (dir q : FilePath) → below dir q ≡ none → below (n ∷ dir) q ≡ none
below-higher n dir q h = elim (Option-cases (below (n ∷ dir) q)) [
  | inl e ↦ e
  | inr (way, e) ↦
      let whole : q ≡ (way ++ n ∷ []) ++ dir =
        below_sound (n ∷ dir) q way e ∙ sym (append_assoc way (n ∷ []) dir) in
      absurd (none-ne-some _ (sym h ∙ (ap (below dir) whole ∙ below-append dir (way ++ n ∷ []))))
]

module _ (rm : Removal) (read : ReadDir) (works : (p : FilePath) → rm.fails p ≡ false) where
  remove_all-none : (p q : FilePath) (fs : Fs) → fs q ≡ none → remove_all rm p fs q ≡ none
  unfolding remove_all
  remove_all-none p q fs h = at_way (below p q)
    where
      at_way : (o : Option FilePath) → removed_at rm p o q (fs q) ≡ none
      at_way none = h
      at_way (some way) = rw (works p) refl

  remove_all-gone : (p way : FilePath) (fs : Fs) → remove_all rm p fs (way ++ p) ≡ none
  unfolding remove_all
  remove_all-gone p way fs = rw (below-append p way, works p) refl

  remove_each-none :
      (dir q : FilePath) (names : List Bytes) (fs : Fs) (ok : Bool)
      → fs q ≡ none
      → (remove_each rm dir names (fs, ok)).0 q ≡ none
  unfolding remove_each
  remove_each-none dir q [] fs ok h = h
  remove_each-none dir q (name ∷ names) fs ok h =
      remove_each-none dir q names (remove_all rm (name ∷ dir) fs) _
        (remove_all-none (name ∷ dir) q fs h)

  remove_each-gone :
      (dir way : FilePath) (names : List Bytes) (name : Bytes) (fs : Fs) (ok : Bool)
      → contains names name ≡ true
      → (remove_each rm dir names (fs, ok)).0 (way ++ name ∷ dir) ≡ none
  unfolding remove_each contains
  remove_each-gone dir way [] name fs ok h = absurd (cc)
  remove_each-gone dir way (n ∷ names) name fs ok h = elim (Bool-cases (eqb n name)) [
    | inl e ↦
        let here : remove_all rm (n ∷ dir) fs (way ++ name ∷ dir) ≡ none =
          ap (λ x. remove_all rm (n ∷ dir) fs (way ++ x ∷ dir)) (sym ((eqb_iff n name).0 e))
          ∙ remove_all-gone (n ∷ dir) way fs in
        remove_each-none dir (way ++ name ∷ dir) names (remove_all rm (n ∷ dir) fs) _ here
    | inr e ↦ remove_each-gone dir way names name (remove_all rm (n ∷ dir) fs) _ (rw e at h)
  ]

  remove_each-beside :
      (dir q : FilePath) (names : List Bytes) (fs : Fs) (ok : Bool)
      → below dir q ≡ none
      → (remove_each rm dir names (fs, ok)).0 q ≡ fs q
  unfolding remove_each
  remove_each-beside dir q [] fs ok h = refl
  remove_each-beside dir q (name ∷ names) fs ok h =
      remove_each-beside dir q names (remove_all rm (name ∷ dir) fs) _ h
      ∙ (unfold remove_all in (rw (below-higher name dir q h) refl))

  remove_each-works :
      (dir : FilePath) (names : List Bytes) (fs : Fs)
      → (remove_each rm dir names (fs, true)).1 ≡ true
  unfolding remove_each
  remove_each-works dir [] fs = refl
  remove_each-works dir (name ∷ names) fs =
      ap (λ b. (remove_each rm dir names (remove_all rm (name ∷ dir) fs, true && not b)).1)
        (works (name ∷ dir))
      ∙ remove_each-works dir names (remove_all rm (name ∷ dir) fs)

  -- One of the two directories is emptied.
  pub record Cleared (dir : FilePath) (o : Option (List Bytes)) (s after : Emptied) : Type 0 where
    pub gone :
        (names : List Bytes) (name : Bytes) (way : FilePath)
        → o ≡ some names
        → contains names name ≡ true
        → after.0 (way ++ name ∷ dir) ≡ none
    pub absent : (q : FilePath) → s.0 q ≡ none → after.0 q ≡ none
    pub beside : (q : FilePath) → below dir q ≡ none → after.0 q ≡ s.0 q
    pub works_on : s.1 ≡ true → after.1 ≡ true

  pub remove_listed-Cleared :
      (dir : FilePath) (o : Option (List Bytes)) (s : Emptied)
      → Cleared dir o s (remove_listed rm dir o s)
  remove_listed-Cleared dir none s = record {
    gone = λ names name way e h. absurd (none-ne-some _ e);
    absent = λ q h. h;
    beside = λ q h. refl;
    works_on = λ h. h;
  }
  remove_listed-Cleared dir (some ns) (fs, ok) = record {
    gone = λ names name way e h.
        remove_each-gone dir way ns name fs ok
          (ap (λ x. contains x name) (some-injective _ _ e) ∙ h);
    absent = λ q h. remove_each-none dir q ns fs ok h;
    beside = λ q h. remove_each-beside dir q ns fs ok h;
    works_on = λ h. ap (λ b. (remove_each rm dir ns (fs, b)).1) h ∙ remove_each-works dir ns fs;
  }

  pub without_sizes-none :
      (p q : FilePath) (s : Emptied) → s.0 q ≡ none → (without_sizes rm p s).0 q ≡ none
  without_sizes-none p q (fs, ok) h = elim (Bool-cases (same p q && rm.removable p)) [
    | inl e ↦ rw e refl
    | inr e ↦ rw e h
  ]

  pub without_sizes-beside :
      (n : Bytes) (trash q : FilePath) (s : Emptied)
      → below trash q ≡ none
      → (without_sizes rm (n ∷ trash) s).0 q ≡ s.0 q
  without_sizes-beside n trash q (fs, ok) h = elim (Bool-cases (same (n ∷ trash) q)) [
    | inl e ↦
        let inside : below trash q ≡ some (n ∷ []) =
          ap (below trash) (sym ((same_iff (n ∷ trash) q).0 e)) ∙ below-append trash (n ∷ []) in
        absurd (none-ne-some _ (sym h ∙ inside))
    | inr e ↦ rw e refl
  ]
