-- ===== src/Prelude/Split.antt =====
-- strings.Split and strings.Join at one byte, and the prefixes and suffixes of strings.
use Prim.Native.Nat.{◌-◌, ℕ}
use mathlib.Core.Path.{◌≡◌, refl, sym, ap, ◌∙◌}
use mathlib.Core.Logic.{inl, inr}
use mathlib.Core.Bool.{Bool, false}
use mathlib.Core.List.{List, [], ◌∷◌, ◌++◌}
use mathlib.Core.Option.{Option, none, some}
use native.Mathlib.Omega.{arith}
use dankgo.Prelude.Tests.{if◌then◌else◌, ◌==◌, Bool-cases}
use dankgo.Prelude.Lists.{All, drop, length}
use dankgo.Prelude.Text.{Bytes, eqb}

-- The byte goes to the front of the first part.
abbrev pub push : ℕ → List Bytes → List Bytes
push c [] = (c ∷ []) ∷ []
push c (p ∷ ps) = (c ∷ p) ∷ ps

unfoldable pub split : ℕ → Bytes → List Bytes
split sep [] = [] ∷ []
split sep (c ∷ cs) = let rest = split sep cs in if c == sep then [] ∷ rest else push c rest

abbrev pub join_more : ℕ → Bytes → List Bytes → Bytes
join_more sep p [] = p
join_more sep p (q ∷ qs) = p ++ sep ∷ join_more sep q qs

unfoldable pub join : ℕ → List Bytes → Bytes
join sep [] = []
join sep (p ∷ ps) = join_more sep p ps

abbrev pub IsFree : ℕ → Bytes → Type 0
IsFree sep = All (λ c. (c == sep) ≡ false)

-- strings.CutPrefix: what stands behind the prefix.
unfoldable pub cut_prefix : Bytes → Bytes → Option Bytes
cut_prefix [] s = some s
cut_prefix (p ∷ ps) [] = none
cut_prefix (p ∷ ps) (c ∷ cs) = if p == c then cut_prefix ps cs else none

-- strings.HasSuffix
unfoldable pub has_suffix : Bytes → Bytes → Bool
unfolding eqb
has_suffix s suffix = eqb (drop (length s - length suffix) s) suffix

pub split-append :
    (sep : ℕ) (p rest : Bytes) → IsFree sep p → split sep (p ++ sep ∷ rest) ≡ p ∷ split sep rest
unfolding split
split-append sep [] rest f = ground arith
split-append sep (c ∷ cs) rest (h, f) = ground (arith, split-append sep cs rest f)

pub split-free : (sep : ℕ) (p : Bytes) → IsFree sep p → split sep p ≡ p ∷ []
unfolding split
split-free sep [] f = refl
split-free sep (c ∷ cs) (h, f) = ground (arith, split-free sep cs f)

-- Splitting what was joined from parts without the separator gives the parts.
pub split-join_more :
    (sep : ℕ) (p : Bytes) (ps : List Bytes)
    → IsFree sep p
    → All (IsFree sep) ps
    → split sep (join_more sep p ps) ≡ p ∷ ps
split-join_more sep p [] f a = split-free sep p f
split-join_more sep p (q ∷ qs) f (g, a) =
    split-append sep p (join_more sep q qs) f ∙ ap (λ x. p ∷ x) (split-join_more sep q qs g a)

pub cut_prefix-append : (p s : Bytes) → cut_prefix p (p ++ s) ≡ some s
unfolding cut_prefix
cut_prefix-append [] s = refl
cut_prefix-append (c ∷ p) s = ground (arith, cut_prefix-append p s)

pub IsFree-append : (sep : ℕ) (a b : Bytes) → IsFree sep a → IsFree sep b → IsFree sep (a ++ b)
IsFree-append sep [] b f g = g
IsFree-append sep (c ∷ a) b (h, f) g = (h, IsFree-append sep a b f g)

push-append :
    (c : ℕ) (ps : List Bytes) (q : Bytes) (qs rs : List Bytes)
    → ps ≡ q ∷ qs
    → push c ps ++ rs ≡ push c (ps ++ rs)
push-append c ps q qs rs e = rw e refl

pub split_nonempty :
    (sep : ℕ) (s : Bytes) → (q : Bytes) × ((qs : List Bytes) × (split sep s ≡ q ∷ qs))
unfolding split
split_nonempty sep [] = ([], ([], refl))
split_nonempty sep (c ∷ cs) =
    let (q, (qs, e)) = split_nonempty sep cs in
    elim (Bool-cases (c == sep)) [
      | inl h ↦ ([], (split sep cs, rw h refl))
      | inr h ↦ (c ∷ q, (qs, rw (h, e) refl))
    ]

-- Splitting at a separator in the middle.
pub split_middle : (sep : ℕ) (a b : Bytes) → split sep (a ++ sep ∷ b) ≡ split sep a ++ split sep b
unfolding split
split_middle sep [] b = ground arith
split_middle sep (c ∷ cs) b =
    let ih = split_middle sep cs b in
    elim (Bool-cases (c == sep)) [
      | inl h ↦ rw h (ap (λ x. [] ∷ x) ih)
      | inr h ↦
          let (q, (qs, e)) = split_nonempty sep cs in
          rw h (ap (push c) ih ∙ sym (push-append c (split sep cs) q qs (split sep b) e))
    ]
