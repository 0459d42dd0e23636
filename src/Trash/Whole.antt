-- ===== src/Trash/Whole.antt =====
-- The file system under trash/trash.go: what the calls do to a tree.
use dankgo.Prelude.{
  ◌≡◌, sym, ap, ◌∙◌, true, false, Option, none, some, [], ◌∷◌, ◌++◌, arith, Bool-cases,
  Option-cases, inl, inr, length, subst,
}
use mathlib.Core.Option.{none-ne-some}
use dankgo.Prelude.Text.{Bytes}
use dankgo.Trash.Tree.{
  FilePath, Node, Fs, same, same_iff, below, exists, set, is_some, is_dir_at, moved, moved_from,
  remove,
}
use dankgo.Trash.Safety.{IsTree, below-append, below-short}
use dankgo.Trash.Stored.{below_sound}

not_there : (o : Option Node) → is_some o ≡ false → is_dir_at o ≡ true → ⊥
not_there none e h = absurd (cc)
not_there (some n) e h = absurd (cc)

same_child : (c : Bytes) (cs : FilePath) → same cs (c ∷ cs) ≡ false
same_child c cs = elim (Bool-cases (same cs (c ∷ cs))) [
  | inl e ↦
      let lengths : length cs ≡ length (c ∷ cs) = ap length ((same_iff cs (c ∷ cs)).0 e) in
      absurd (omega arith)
  | inr e ↦ e
]

-- A new node in a directory.
pub set-IsTree :
    (fs : Fs) (c : Bytes) (cs : FilePath) (n : Node)
    → IsTree fs
    → is_dir_at (fs cs) ≡ true
    → exists fs (c ∷ cs) ≡ false
    → IsTree (set (c ∷ cs) (some n) fs)
unfolding exists
set-IsTree fs c cs n tree parent free d ds m h = elim (Bool-cases (same (c ∷ cs) ds)) [
  | inl e ↦
      let whole = (same_iff (c ∷ cs) ds).0 e in
      let other : same (c ∷ cs) (d ∷ ds) ≡ false =
        subst (λ x. same (c ∷ cs) (d ∷ x) ≡ false) whole (same_child d (c ∷ cs)) in
      let dir = tree d ds m (rw other at h) in
      absurd (not_there (fs (c ∷ cs)) free (ap (λ x. is_dir_at (fs x)) whole ∙ dir))
  | inr e ↦ rw e (elim (Bool-cases (same (c ∷ cs) (d ∷ ds))) [
    | inl s ↦
        let tails : cs ≡ ds = ap behind ((same_iff (c ∷ cs) (d ∷ ds)).0 s) in
        ap (λ x. is_dir_at (fs x)) (sym tails) ∙ parent
    | inr s ↦ tree d ds m (rw s at h)
  ])
]
  where
    behind : FilePath → FilePath
    behind [] = []
    behind (x ∷ xs) = xs

-- A file that goes.
pub remove-IsTree :
    (fs : Fs) (p : FilePath) → IsTree fs → is_dir_at (fs p) ≡ false → IsTree (remove p fs)
unfolding remove
remove-IsTree fs p tree file d ds m h = elim (Bool-cases (same p (d ∷ ds))) [
  | inl e ↦ absurd (none-ne-some _ (rw e at h))
  | inr e ↦
      let dir = tree d ds m (rw e at h) in
      elim (Bool-cases (same p ds)) [
        | inl s ↦
            let here : is_dir_at (fs p) ≡ true =
              ap (λ x. is_dir_at (fs x)) ((same_iff p ds).0 s) ∙ dir in
            absurd (cc)
        | inr s ↦ rw s dir
      ]
]

below-child :
    (top cs w : FilePath) (c : Bytes) → below top cs ≡ some w → below top (c ∷ cs) ≡ some (c ∷ w)
below-child top cs w c h =
    ap (λ x. below top (c ∷ x)) (below_sound top cs w h) ∙ below-append top (c ∷ w)

pub below-parent : (top cs : FilePath) (c : Bytes) → below top (c ∷ cs) ≡ none → below top cs ≡ none
below-parent top cs c h = elim (Option-cases (below top cs)) [
  | inl e ↦ e
  | inr (w, e) ↦ absurd (none-ne-some _ (sym h ∙ below-child top cs w c e))
]

-- A tree that moves into a directory beside it.
pub moved-IsTree :
    (fs : Fs) (p : FilePath) (t : Bytes) (ts : FilePath)
    → IsTree fs
    → is_dir_at (fs ts) ≡ true
    → below p (t ∷ ts) ≡ none
    → IsTree (moved p (t ∷ ts) fs)
unfolding moved
moved-IsTree fs p t ts tree parent beside c cs n h = elim (Option-cases (below (t ∷ ts) (c ∷ cs))) [
  | inr (way, e) ↦ inside_it way e (below_sound (t ∷ ts) (c ∷ cs) way e)
  | inl e ↦ elim (Option-cases (below p (c ∷ cs))) [
    | inr (w, f) ↦ absurd (none-ne-some _ (rw (e, f) at h))
    | inl f ↦
        rw (below-parent (t ∷ ts) cs c e, below-parent p cs c f) (tree c cs n (rw (e, f) at h))
  ]
]
  where
    behind : FilePath → FilePath
    behind [] = []
    behind (x ∷ xs) = xs

    inside_it :
        (way : FilePath)
        → below (t ∷ ts) (c ∷ cs) ≡ some way
        → c ∷ cs ≡ way ++ t ∷ ts
        → is_dir_at (moved_from p (t ∷ ts) (below (t ∷ ts) cs) (below p cs) fs (fs cs)) ≡ true
    inside_it [] e whole =
        subst
          (λ x. is_dir_at (moved_from p (t ∷ ts) (below (t ∷ ts) x) (below p x) fs (fs x)) ≡ true)
          (sym (ap behind whole))
          (rw (below-short (t ∷ ts) ts (omega arith), below-parent p ts t beside) parent)
    inside_it (w ∷ ways) e whole =
        subst
          (λ x. is_dir_at (moved_from p (t ∷ ts) (below (t ∷ ts) x) (below p x) fs (fs x)) ≡ true)
          (sym (ap behind whole))
          (rw (below-append (t ∷ ts) ways) (
            tree w (ways ++ p) n
              (sym (ap (λ o. moved_from p (t ∷ ts) o (below p (c ∷ cs)) fs (fs (c ∷ cs))) e) ∙ h)))
