-- ===== src/Lyrics/Race/Best.antt =====
-- bestFound: the first of the results with the highest tier.
use dankgo.Prelude.{
  ℕ, zero, suc, ◌+◌, ◌≤◌, ◌<◌, ◌≡◌, refl, ◌⊎◌, inl, inr, Option, none, some, List, [], ◌∷◌, arith,
  All, Option-cases, ◌∙◌, ap, Bool-cases, ltb,
}
use dankgo.Lyrics.Tier.{Result, tier}
use dankgo.Lyrics.Race.{Slot, found_in, best_from, best_found, better}

-- Nothing found, or one more than the tier.
abbrev pub rank : {S : Type 0} → Option (Result S) → ℕ
rank none = 0
rank (some r) = suc (tier r.lyrics)

abbrev rank_best : {S : Type 0} → Option (Result S × ℕ) → ℕ
rank_best none = 0
rank_best (some best) = suc (tier best.0.lyrics)

module _ {S : Type 0} where
  better-lower :
      (i j : ℕ) (r : Result S) (o : Option (Result S))
      → rank o ≤ suc (tier r.lyrics)
      → better i o (some (r, j)) ≡ some (r, j)
  better-lower i j r none h = refl
  better-lower i j r (some x) h = ground arith

  better-higher :
      (i : ℕ) (r : Result S) (best : Option (Result S × ℕ))
      → rank_best best < suc (tier r.lyrics)
      → better i (some r) best ≡ some (r, i)
  better-higher i r none h = refl
  better-higher i r (some x) h = ground arith

  rank-better :
      (i n : ℕ) (o : Option (Result S)) (best : Option (Result S × ℕ))
      → rank o < n
      → rank_best best < n
      → rank_best (better i o best) < n
  rank-better i n none best h k = k
  rank-better i n (some r) none h k = h
  rank-better i n (some r) (some best) h k = ground arith

  rank-none : (o : Option (Result S)) → rank o ≤ 0 → o ≡ none
  rank-none none h = refl
  rank-none (some r) h = ground arith

module _ {S E : Type 0} where
  abbrev pub rank_of : Slot S E → ℕ
  rank_of s = rank (found_in s.response)

  -- The result stands at the index, all before it rank lower and none behind it ranks higher.
  abbrev pub Wins : List (Slot S E) → ℕ → Result S → Type 0
  Wins [] k r = ⊥
  Wins (s ∷ ss) zero r =
      (found_in s.response ≡ some r) × All (λ x. rank_of x ≤ suc (tier r.lyrics)) ss
  Wins (s ∷ ss) (suc k) r = (rank_of s < suc (tier r.lyrics)) × Wins ss k r

  abbrev pub IsBare : List (Slot S E) → Type 0
  IsBare = All (λ s. found_in s.response ≡ none)

  best_from-lower :
      (i : ℕ) (r : Result S) (j : ℕ) (ss : List (Slot S E))
      → All (λ x. rank_of x ≤ suc (tier r.lyrics)) ss
      → best_from i (some (r, j)) ss ≡ some (r, j)
  unfolding best_from
  best_from-lower i r j [] a = refl
  best_from-lower i r j (s ∷ ss) (h, a) =
      rw (better-lower i j r (found_in s.response) h) (best_from-lower (suc i) r j ss a)

  best_from-Wins :
      (i : ℕ) (best : Option (Result S × ℕ)) (ss : List (Slot S E)) (k : ℕ) (r : Result S)
      → Wins ss k r
      → rank_best best < suc (tier r.lyrics)
      → best_from i best ss ≡ some (r, i + k)
  unfolding best_from
  best_from-Wins i best [] k r w l = absurd w
  best_from-Wins i best (s ∷ ss) zero r (e, a) l =
      rw (e, better-higher i r best l)
        (best_from-lower (suc i) r i ss a ∙ ap (λ n. some (r, n)) (omega arith))
  best_from-Wins i best (s ∷ ss) (suc k) r (h, w) l =
      best_from-Wins (suc i) (better i (found_in s.response) best) ss k r w
        (rank-better i _ (found_in s.response) best h l)
      ∙ ap (λ n. some (r, n)) (omega arith)

  best_from-IsBare :
      (i : ℕ) (best : Option (Result S × ℕ)) (ss : List (Slot S E))
      → IsBare ss
      → best_from i best ss ≡ best
  unfolding best_from
  best_from-IsBare i best [] b = refl
  best_from-IsBare i best (s ∷ ss) (e, b) = rw e (best_from-IsBare (suc i) best ss b)

  -- The winner is what bestFound returns, with its index.
  pub best_found-Wins :
      (ss : List (Slot S E)) (k : ℕ) (r : Result S) → Wins ss k r → best_found ss ≡ some (r, k)
  unfolding best_found
  best_found-Wins ss k r w =
      best_from-Wins 0 none ss k r w (omega arith) ∙ ap (λ n. some (r, n)) (omega arith)

  pub best_found-IsBare : (ss : List (Slot S E)) → IsBare ss → best_found ss ≡ none
  unfolding best_found
  best_found-IsBare ss b = best_from-IsBare 0 none ss b

  All-IsBare : (n : ℕ) (ss : List (Slot S E)) → IsBare ss → All (λ x. rank_of x ≤ n) ss
  All-IsBare n [] b = tt
  All-IsBare n (s ∷ ss) (e, b) = (rw e (omega arith), All-IsBare n ss b)

  All-below :
      (m n : ℕ) (ss : List (Slot S E))
      → m ≤ n
      → All (λ x. rank_of x ≤ m) ss
      → All (λ x. rank_of x ≤ n) ss
  All-below m n [] l a = tt
  All-below m n (s ∷ ss) l (h, a) = (omega arith, All-below m n ss l a)

  -- All slots rank at most as high as the winner.
  pub All-Wins :
      (ss : List (Slot S E)) (k : ℕ) (r : Result S)
      → Wins ss k r
      → All (λ x. rank_of x ≤ suc (tier r.lyrics)) ss
  All-Wins [] k r w = absurd w
  All-Wins (s ∷ ss) zero r (e, a) = (rw e (omega arith), a)
  All-Wins (s ∷ ss) (suc k) r (h, w) = (omega arith, All-Wins ss k r w)

  -- Nothing is found, or there is a winner.
  pub winner_of : (ss : List (Slot S E)) → IsBare ss ⊎ ((k : ℕ) × ((r : Result S) × Wins ss k r))
  winner_of [] = inl tt
  winner_of (s ∷ ss) = elim (winner_of ss) [
    | inl b ↦ elim (Option-cases (found_in s.response)) [
      | inl e ↦ inl (e, b)
      | inr (r, e) ↦ inr (0, (r, (e, All-IsBare _ ss b)))
    ]
    | inr (k, (r, w)) ↦ elim (Option-cases (found_in s.response)) [
      | inl e ↦ inr (suc k, (r, (rw e (omega arith), w)))
      | inr (x, e) ↦ elim (Bool-cases (ltb (tier x.lyrics) (tier r.lyrics))) [
        | inl l ↦ inr (suc k, (r, (rw e (ground arith), w)))
        | inr l ↦ inr (0, (x, (e, All-below _ _ ss (ground arith) (All-Wins ss k r w))))
      ]
    ]
  ]
