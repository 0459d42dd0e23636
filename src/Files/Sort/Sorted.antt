-- ===== src/Files/Sort/Sorted.antt =====
-- Sorting and sorted insertion by any comparison: the order, the elements, and that inserting one
-- element into a sorted list is sorting the longer list.
use mathlib.Core.List.{Perm}
use mathlib.Core.List.Perm
use dankgo.Prelude.{
  ℕ, zero, suc, ◌≡◌, refl, Bool, true, false, List, [], ◌∷◌, ◌++◌, arith, take, drop, All, Ordering,
  if◌then◌else◌,
}
use dankgo.Prelude.Order.{IsOrder, le_trans_order}
use dankgo.Files.Sort.Search.{holds_at, binary_search, IsFront, binary_search_lem}

abbrev pub is_lt : Ordering → Bool
is_lt Ordering.lt = true
is_lt Ordering.eq = false
is_lt Ordering.gt = false

abbrev pub is_gt : Ordering → Bool
is_gt Ordering.lt = false
is_gt Ordering.eq = false
is_gt Ordering.gt = true

-- slices.Insert at an index within the slice.
abbrev pub insert_at {ℓ} : {A : Type ℓ} → ℕ → A → List A → List A
insert_at k e xs = take k xs ++ e ∷ drop k xs

module _ {ℓ} {A : Type ℓ} (c : A → A → Ordering) where
  -- One step of the stable sort: in front of the first element that is not smaller.
  unfoldable pub insert_stable : A → List A → List A
  insert_stable e [] = e ∷ []
  insert_stable e (x ∷ xs) =
      let rest = insert_stable e xs in if is_gt (c e x) then x ∷ rest else e ∷ x ∷ xs

  -- slices.SortStableFunc: its contract, the stable sort, by insertion.
  unfoldable pub sort_stable : List A → List A
  unfolding insert_stable
  sort_stable [] = []
  sort_stable (x ∷ xs) = insert_stable x (sort_stable xs)

  abbrev pub IsSorted : List A → Type ℓ
  IsSorted [] = Unit
  IsSorted (x ∷ xs) = All (λ y. is_gt (c x y) ≡ false) xs × IsSorted xs

  -- index, _ := slices.BinarySearchFunc(...); slices.Insert(entries, index, e)
  unfoldable pub insert_searched : List A → A → List A
  insert_searched xs e = insert_at (binary_search (λ x. is_lt (c x e)) xs) e xs

module _ {ℓ} {A : Type ℓ} {c : A → A → Ordering} (o : IsOrder c) where
  All-le_trans :
      (a b : A) (xs : List A)
      → is_gt (c a b) ≡ false
      → All (λ y. is_gt (c b y) ≡ false) xs
      → All (λ y. is_gt (c a y) ≡ false) xs
  All-le_trans a b [] h k = tt
  All-le_trans a b (x ∷ xs) h (k, ks) =
      (ground (arith, le_trans_order o a b x), All-le_trans a b xs h ks)

  All-insert_stable :
      (a e : A) (xs : List A)
      → is_gt (c a e) ≡ false
      → All (λ y. is_gt (c a y) ≡ false) xs
      → All (λ y. is_gt (c a y) ≡ false) (insert_stable c e xs)
  unfolding insert_stable
  All-insert_stable a e [] h k = (h, tt)
  All-insert_stable a e (x ∷ xs) h (k, ks) = ground (arith, All-insert_stable a e xs h ks)

  insert_stable-IsSorted : (e : A) (xs : List A) → IsSorted c xs → IsSorted c (insert_stable c e xs)
  unfolding insert_stable
  insert_stable-IsSorted e [] s = (tt, tt)
  insert_stable-IsSorted e (x ∷ xs) (s, ss) = ground (
    arith,
    insert_stable-IsSorted e xs ss,
    All-insert_stable x e xs,
    o.swap e x,
    All-le_trans e x xs,
  )

  pub sort_stable-IsSorted : (xs : List A) → IsSorted c (sort_stable c xs)
  unfolding sort_stable
  sort_stable-IsSorted [] = tt
  sort_stable-IsSorted (x ∷ xs) =
      insert_stable-IsSorted x (sort_stable c xs) (sort_stable-IsSorted xs)

  -- A sorted list is its own sort.
  insert_stable-least :
      (x : A) (xs : List A) → All (λ y. is_gt (c x y) ≡ false) xs → insert_stable c x xs ≡ x ∷ xs
  unfolding insert_stable
  insert_stable-least x [] h = refl
  insert_stable-least x (y ∷ ys) h = ground arith

  pub sort_stable-sorted : (xs : List A) → IsSorted c xs → sort_stable c xs ≡ xs
  unfolding sort_stable
  sort_stable-sorted [] s = refl
  sort_stable-sorted (x ∷ xs) (s, ss) = rw (sort_stable-sorted xs ss) (insert_stable-least x xs s)

  -- The test of the binary search holds on a front part of a sorted list.
  none_lt :
      (e x : A) (xs : List A) (n : ℕ)
      → is_lt (c x e) ≡ false
      → All (λ y. is_gt (c x y) ≡ false) xs
      → holds_at (λ y. is_lt (c y e)) xs n ≡ false
  none_lt e x [] n h k = refl
  none_lt e x (y ∷ ys) zero h k = ground (arith, o.swap x y, o.eq_left x y e, o.lt_trans x y e)
  none_lt e x (y ∷ ys) (suc n) h k = none_lt e x ys n h k.1

  sorted-IsFront : (e : A) (xs : List A) → IsSorted c xs → IsFront (λ x. is_lt (c x e)) xs
  sorted-IsFront e [] s m n h k = k
  sorted-IsFront e (x ∷ xs) (s, ss) zero zero h k = k
  sorted-IsFront e (x ∷ xs) (s, ss) zero (suc n) h k = ground (arith, none_lt e x xs n)
  sorted-IsFront e (x ∷ xs) (s, ss) (suc m) zero h k = elim h [ ]
  sorted-IsFront e (x ∷ xs) (s, ss) (suc m) (suc n) h k = sorted-IsFront e xs ss m n (omega arith) k

  split_insert :
      (e : A) (xs : List A) (k : ℕ)
      → All (λ x. is_lt (c x e) ≡ true) (take k xs)
      → All (λ x. is_lt (c x e) ≡ false) (drop k xs)
      → insert_at k e xs ≡ insert_stable c e xs
  unfolding insert_stable
  split_insert e [] zero h t = refl
  split_insert e [] (suc k) h t = refl
  split_insert e (x ∷ xs) zero h t = ground (arith, o.swap x e)
  split_insert e (x ∷ xs) (suc k) h t = ground (arith, o.swap x e, split_insert e xs k h.1 t)

  -- Searching and inserting gives the same list as the sort of the longer list.
  pub insert_searched-sort_stable :
      (xs : List A) (e : A) → IsSorted c xs → insert_searched c xs e ≡ sort_stable c (e ∷ xs)
  unfolding insert_searched sort_stable
  insert_searched-sort_stable xs e s =
      let found = binary_search_lem (λ x. is_lt (c x e)) xs (sorted-IsFront e xs s) in
      rw (sort_stable-sorted xs s) (split_insert e xs _ found.0 found.1)

module _ {ℓ} {A : Type ℓ} (c : A → A → Ordering) where
  insert_stable-perm : (e : A) (xs : List A) → Perm (insert_stable c e xs) (e ∷ xs)
  unfolding insert_stable
  insert_stable-perm e [] = Perm.refl (e ∷ [])
  insert_stable-perm e (x ∷ xs) =
      let moved = Perm.trans (Perm.cons x (insert_stable-perm e xs)) (Perm.swap e x xs) in
      ground (arith, moved, Perm.refl (e ∷ x ∷ xs))

  pub sort_stable-perm : (xs : List A) → Perm (sort_stable c xs) xs
  unfolding sort_stable
  sort_stable-perm [] = Perm.refl []
  sort_stable-perm (x ∷ xs) =
      Perm.trans (insert_stable-perm x (sort_stable c xs)) (Perm.cons x (sort_stable-perm xs))
