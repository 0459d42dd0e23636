-- ===== src/Files/Sort/Search.antt =====
-- slices.BinarySearchFunc, the halving loop over a slice: what it finds where the test is true on a
-- front part of the slice and false behind it.
use dankgo.Prelude.{
  ℕ, zero, suc, ◌+◌, ◌/◌, ◌≤◌, ◌<◌, ◌≡◌, refl, inl, inr, Bool, true, false, List, [], ◌∷◌, arith,
  ltb, if◌then◌else◌, length, take, drop, All, Bool-cases,
}

module _ {ℓ} {A : Type ℓ} (p : A → Bool) where
  -- The test at an index; the loop never reads out of range, where Go would panic.
  abbrev pub holds_at : List A → ℕ → Bool
  holds_at [] i = false
  holds_at (x ∷ xs) zero = p x
  holds_at (x ∷ xs) (suc i) = holds_at xs i

  -- for i < j { h := (i + j) / 2; if p(x[h]) { i = h + 1 } else { j = h } }
  search_loop : List A → ℕ → ℕ → ℕ → ℕ
  search_loop xs zero i j = i
  search_loop xs (suc fuel) i j =
      let above = search_loop xs fuel ((i + j) / 2 + 1) j in
      let below = search_loop xs fuel i ((i + j) / 2) in
      if ltb i j then (if holds_at xs ((i + j) / 2) then above else below) else i

  -- Each round shortens the interval, so as many rounds as the slice is long are enough.
  unfoldable pub binary_search : List A → ℕ
  unfolding search_loop
  binary_search xs = search_loop xs (length xs) 0 (length xs)

  -- The test fails from some index on: where it holds, it holds at every smaller index.
  abbrev pub IsFront : List A → Type 0
  IsFront xs = (m n : ℕ) → m ≤ n → holds_at xs n ≡ true → holds_at xs m ≡ true

  record Splits (xs : List A) (k : ℕ) : Type 0 where
    before : (m : ℕ) → m < k → holds_at xs m ≡ true
    behind : (m : ℕ) → k ≤ m → holds_at xs m ≡ false

  out_of_range : (xs : List A) (m : ℕ) → length xs ≤ m → holds_at xs m ≡ false
  out_of_range [] m h = refl
  out_of_range (x ∷ xs) zero h = elim h [ ]
  out_of_range (x ∷ xs) (suc m) h = out_of_range xs m (omega arith)

  search_loop-Splits :
      (xs : List A) (fuel i j : ℕ)
      → IsFront xs
      → j ≤ i + fuel
      → i ≤ j
      → ((m : ℕ) → m < i → holds_at xs m ≡ true)
      → ((m : ℕ) → j ≤ m → holds_at xs m ≡ false)
      → Splits xs (search_loop xs fuel i j)
  unfolding search_loop
  search_loop-Splits xs zero i j front enough order lo hi = record {
    before = lo;
    behind = λ m h. hi m (omega arith);
  }
  search_loop-Splits xs (suc fuel) i j front enough order lo hi = elim (Bool-cases (ltb i j)) [
    | inr done ↦ rw done (record { before = lo; behind = λ m h. hi m (ground arith) })
    | inl more ↦ elim (Bool-cases (holds_at xs ((i + j) / 2))) [
      | inl yes' ↦
          rw (more, yes')
            (search_loop-Splits xs fuel ((i + j) / 2 + 1) j front (ground arith) (ground arith)
              (λ m h. front m ((i + j) / 2) (omega arith) yes') hi)
      | inr no' ↦
          rw (more, no')
            (search_loop-Splits xs fuel i ((i + j) / 2) front (ground arith) (ground arith) lo
              (λ m h. elim (Bool-cases (holds_at xs m)) [
                | inl e ↦ ground (arith, front ((i + j) / 2) m h e)
                | inr e ↦ e
              ]))
    ]
  ]

  Splits-take : (xs : List A) (k : ℕ) → Splits xs k → All (λ x. p x ≡ true) (take k xs)
  Splits-take xs zero s = tt
  Splits-take [] (suc k) s = tt
  Splits-take (x ∷ xs) (suc k) s = (
    s.before 0 (omega arith),
    Splits-take xs k (record {
      before = λ m h. s.before (suc m) (omega arith);
      behind = λ m h. s.behind (suc m) (omega arith);
    }),
  )

  Splits-drop : (xs : List A) (k : ℕ) → Splits xs k → All (λ x. p x ≡ false) (drop k xs)
  Splits-drop [] zero s = tt
  Splits-drop [] (suc k) s = tt
  Splits-drop (x ∷ xs) zero s = (
    s.behind 0 (omega arith),
    Splits-drop xs zero
        (record { before = λ m h. elim h [ ]; behind = λ m h. s.behind (suc m) (omega arith) }),
  )
  Splits-drop (x ∷ xs) (suc k) s = Splits-drop xs k (record {
    before = λ m h. s.before (suc m) (omega arith);
    behind = λ m h. s.behind (suc m) (omega arith);
  })

  binary_search-Splits : (xs : List A) → IsFront xs → Splits xs (binary_search xs)
  unfolding binary_search
  binary_search-Splits xs front =
      search_loop-Splits xs (length xs) 0 (length xs) front (omega arith) (omega arith)
        (λ m h. elim h [ ]) (out_of_range xs)

  -- The loop finds the end of the front part.
  pub binary_search_lem :
      (xs : List A)
      → IsFront xs
      → All (λ x. p x ≡ true) (take (binary_search xs) xs)
        × All (λ x. p x ≡ false) (drop (binary_search xs) xs)
  binary_search_lem xs front = (
    Splits-take xs _ (binary_search-Splits xs front),
    Splits-drop xs _ (binary_search-Splits xs front),
  )
