-- ===== src/Prelude/Text.antt =====
-- Go strings as lists of bytes: equality, order, prefixes, and literals.
use Prim.Native.Nat.{ℕ, compare, Ordering}
use Prim.Native.Char.{code}
use Prim.Native.String.{String}
use mathlib.Core.Path.{◌≡◌, refl}
use mathlib.Core.Logic.{◌↔◌}
use mathlib.Core.Bool.{Bool, true, false, ◌&&◌}
use mathlib.Core.List.{List, [], ◌∷◌}
use native.Mathlib.Omega.{arith}
use dankgo.Prelude.Tests.{◌==◌}

abbrev pub Bytes : Type 0
Bytes = List ℕ

-- The bytes of an ASCII literal.
abbrev pub codes : String → Bytes
codes String.[] = []
codes (String.◌∷◌ c s) = code c ∷ codes s

-- a == b on strings.
unfoldable pub eqb : Bytes → Bytes → Bool
eqb [] [] = true
eqb [] (y ∷ ys) = false
eqb (x ∷ xs) [] = false
eqb (x ∷ xs) (y ∷ ys) = x == y && eqb xs ys

pub eqb_iff : (a b : Bytes) → (eqb a b ≡ true) ↔ (a ≡ b)
unfolding eqb
eqb_iff [] [] = ground arith
eqb_iff [] (y ∷ ys) = ground arith
eqb_iff (x ∷ xs) [] = ground arith
eqb_iff (x ∷ xs) (y ∷ ys) = ground (arith, eqb_iff xs ys)

pub eqb_refl : (a : Bytes) → eqb a a ≡ true
eqb_refl a = (eqb_iff a a).1 refl

-- bytes.Compare and strings.Compare: the first difference decides, a proper prefix is smaller.
unfoldable pub compare_bytes : Bytes → Bytes → Ordering
compare_bytes [] [] = Ordering.eq
compare_bytes [] (y ∷ ys) = Ordering.lt
compare_bytes (x ∷ xs) [] = Ordering.gt
compare_bytes (x ∷ xs) (y ∷ ys) =
    let rest = compare_bytes xs ys in
    elim (compare x y) [
      | Ordering.lt ↦ Ordering.lt
      | Ordering.gt ↦ Ordering.gt
      | Ordering.eq ↦ rest
    ]

-- strings.HasPrefix s p.
unfoldable pub has_prefix : Bytes → Bytes → Bool
has_prefix s [] = true
has_prefix [] (y ∷ ys) = false
has_prefix (x ∷ xs) (y ∷ ys) = x == y && has_prefix xs ys
