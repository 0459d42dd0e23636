-- ===== src/Prelude/Order.antt =====
-- Comparison functions in Go's style (negative, zero, positive): the laws of a total preorder, and
-- the ways in which the code builds one comparison from others.
use Prim.Native.Nat.{compare, Ordering}
use mathlib.Core.Path.{◌≡◌, refl}
use mathlib.Core.List.{[], ◌∷◌}
use native.Mathlib.Omega.{arith}
use dankgo.Prelude.Int.{ℤ, pos, negsuc, compare_ℤ}
use dankgo.Prelude.Text.{Bytes, compare_bytes}

-- -c
abbrev pub flip : Ordering → Ordering
flip Ordering.lt = Ordering.gt
flip Ordering.eq = Ordering.eq
flip Ordering.gt = Ordering.lt

-- if c != 0 { return c }; return d
abbrev pub or_else : Ordering → Ordering → Ordering
or_else Ordering.lt d = Ordering.lt
or_else Ordering.eq d = d
or_else Ordering.gt d = Ordering.gt

pub record IsOrder {ℓ} {A : Type ℓ} (c : A → A → Ordering) : Type ℓ where
  pub swap : (a b : A) → c b a ≡ flip (c a b)
  pub eq_left : (a b d : A) → c a b ≡ Ordering.eq → c a d ≡ c b d
  pub lt_trans : (a b d : A) → c a b ≡ Ordering.lt → c b d ≡ Ordering.lt → c a d ≡ Ordering.lt

module _ {ℓ} {A : Type ℓ} {c : A → A → Ordering} (o : IsOrder c) where
  pub compare_self : (a : A) → c a a ≡ Ordering.eq
  compare_self a = ground (arith, o.swap a a)

  pub eq_right : (a b d : A) → c b d ≡ Ordering.eq → c a d ≡ c a b
  eq_right a b d h =
      ground (arith, o.swap a b, o.swap a d, o.swap b d, o.eq_left d b a, o.eq_left b d a)

  -- Not greater is transitive.
  pub le_trans_order :
      (a b d : A) → (c a b ≡ Ordering.gt → ⊥) → (c b d ≡ Ordering.gt → ⊥) → c a d ≡ Ordering.gt → ⊥
  le_trans_order a b d h k e = ground (arith, o.lt_trans a b d, o.eq_left a b d, eq_right a b d)

module _ {ℓ} {A : Type ℓ} {c d : A → A → Ordering} (o : IsOrder c) (q : IsOrder d) where
  pub or_else-IsOrder : IsOrder (λ a b. or_else (c a b) (d a b))
  or_else-IsOrder = record {
    swap = λ a b. ground (arith, o.swap a b, q.swap a b);
    eq_left = λ a b x h. ground (arith, o.eq_left a b x, q.eq_left a b x);
    lt_trans = λ a b x h k.
        ground (arith, o.lt_trans a b x, q.lt_trans a b x, o.eq_left a b x, eq_right o a b x);
  }

module _ {ℓ} {A : Type ℓ} {c : A → A → Ordering} (o : IsOrder c) where
  pub flip-IsOrder : IsOrder (λ a b. flip (c a b))
  flip-IsOrder = record {
    swap = λ a b. ground (arith, o.swap a b);
    eq_left = λ a b x h. ground (arith, o.eq_left a b x);
    lt_trans = λ a b x h k. ground (arith, o.lt_trans x b a, o.swap a b, o.swap b x, o.swap a x);
  }

  pub on-IsOrder {κ} : {B : Type κ} (f : B → A) → IsOrder (λ a b. c (f a) (f b))
  on-IsOrder f = record {
    swap = λ a b. o.swap (f a) (f b);
    eq_left = λ a b x. o.eq_left (f a) (f b) (f x);
    lt_trans = λ a b x. o.lt_trans (f a) (f b) (f x);
  }

compare-IsOrder : IsOrder compare
compare-IsOrder = record {
  swap = λ a b. ground arith;
  eq_left = λ a b d h. ground arith;
  lt_trans = λ a b d h k. ground arith;
}

compare_ℤ-swap : (a b : ℤ) → compare_ℤ b a ≡ flip (compare_ℤ a b)
compare_ℤ-swap (pos a) (pos b) = ground arith
compare_ℤ-swap (pos a) (negsuc b) = refl
compare_ℤ-swap (negsuc a) (pos b) = refl
compare_ℤ-swap (negsuc a) (negsuc b) = ground arith

pub compare_ℤ-IsOrder : IsOrder compare_ℤ
compare_ℤ-IsOrder = record {
  swap = compare_ℤ-swap;
  eq_left = λ a b d h. ground arith;
  lt_trans = λ a b d h k. ground arith;
}

compare_bytes-swap : (a b : Bytes) → compare_bytes b a ≡ flip (compare_bytes a b)
unfolding compare_bytes
compare_bytes-swap [] [] = refl
compare_bytes-swap [] (y ∷ ys) = refl
compare_bytes-swap (x ∷ xs) [] = refl
compare_bytes-swap (x ∷ xs) (y ∷ ys) = ground (arith, compare_bytes-swap xs ys)

compare_bytes-eq_left :
    (a b d : Bytes) → compare_bytes a b ≡ Ordering.eq → compare_bytes a d ≡ compare_bytes b d
unfolding compare_bytes
compare_bytes-eq_left [] [] d h = refl
compare_bytes-eq_left [] (y ∷ ys) d h = ground arith
compare_bytes-eq_left (x ∷ xs) [] d h = ground arith
compare_bytes-eq_left (x ∷ xs) (y ∷ ys) [] h = refl
compare_bytes-eq_left (x ∷ xs) (y ∷ ys) (z ∷ zs) h = ground (arith, compare_bytes-eq_left xs ys zs)

compare_bytes-lt_trans :
    (a b d : Bytes)
    → compare_bytes a b ≡ Ordering.lt
    → compare_bytes b d ≡ Ordering.lt
    → compare_bytes a d ≡ Ordering.lt
unfolding compare_bytes
compare_bytes-lt_trans [] [] d h k = ground arith
compare_bytes-lt_trans [] (y ∷ ys) [] h k = ground arith
compare_bytes-lt_trans [] (y ∷ ys) (z ∷ zs) h k = refl
compare_bytes-lt_trans (x ∷ xs) [] d h k = ground arith
compare_bytes-lt_trans (x ∷ xs) (y ∷ ys) [] h k = ground arith
compare_bytes-lt_trans (x ∷ xs) (y ∷ ys) (z ∷ zs) h k =
    ground (arith, compare_bytes-lt_trans xs ys zs)

pub compare_bytes-IsOrder : IsOrder compare_bytes
compare_bytes-IsOrder = record {
  swap = compare_bytes-swap;
  eq_left = compare_bytes-eq_left;
  lt_trans = compare_bytes-lt_trans;
}

-- Only equal strings compare as equal.
pub eq_of_compare_bytes : (a b : Bytes) → compare_bytes a b ≡ Ordering.eq → a ≡ b
unfolding compare_bytes
eq_of_compare_bytes [] [] h = refl
eq_of_compare_bytes [] (y ∷ ys) h = ground arith
eq_of_compare_bytes (x ∷ xs) [] h = ground arith
eq_of_compare_bytes (x ∷ xs) (y ∷ ys) h = ground (arith, eq_of_compare_bytes xs ys)
