-- ===== src/Lyrics/Race/Settled.antt =====
-- blockedAhead and upgradePending: when neither holds back the best result, it stays the best.
use dankgo.Prelude.{
  ℕ, zero, suc, ◌≤◌, ◌<◌, ◌≡◌, ◌⊎◌, inl, inr, Bool, true, false, not, ◌&&◌, ◌||◌, Option, none,
  some, List, [], ◌∷◌, arith, All, any, ltb, ◌==◌, ◌∙◌, sym, ap, subst,
}
use mathlib.Core.Option.{some-injective, none-ne-some}
use dankgo.Lyrics.Tier.{Result, tier, tier-bound}
use dankgo.Lyrics.Race.{
  Slot, found_in, finished, best_found, blocked_ahead, upgrade_pending, is_settled,
}
use dankgo.Lyrics.Race.Best.{rank, rank_of, Wins, winner_of, best_found-Wins, best_found-IsBare}

or_left : (a b : Bool) → (a || b) ≡ false → a ≡ false
or_left a b h = ground arith

or_right : (a b : Bool) → (a || b) ≡ false → b ≡ false
or_right a b h = ground arith

ahead : (w : Bool) (t n : ℕ) → (ltb t 2 || w) ≡ false → (w ≡ false → n ≤ 2) → n < suc t
ahead w t n h k = ground (arith, k)

behind :
    (w : Bool) (t n : ℕ)
    → (t == 0 || ((t == 1) && w)) ≡ false
    → (w ≡ false → n ≤ 2)
    → n ≤ 3
    → n ≤ suc t
behind w t n h k l = ground (arith, k)

rank-bound : {S : Type 0} (o : Option (Result S)) → rank o ≤ 3
rank-bound none = omega arith
rank-bound (some r) = omega (arith, tier-bound r.lyrics)

module _ {S E : Type 0} where
  -- The slots after further providers have finished.
  abbrev pub Completes : List (Slot S E) → List (Slot S E) → Type 0
  Completes [] [] = Unit
  Completes [] (f ∷ fs) = ⊥
  Completes (s ∷ ss) [] = ⊥
  Completes (s ∷ ss) (f ∷ fs) =
      ((f.word_sync ≡ s.word_sync) × ((s.response ≡ none) ⊎ (f.response ≡ s.response)))
      × Completes ss fs

  -- No source without word sync answers with word sync.
  abbrev pub WithinCapability : List (Slot S E) → Type 0
  WithinCapability = All (λ s. s.word_sync ≡ false → rank_of s ≤ 2)

  ahead_of :
      (t : ℕ) (s f : Slot S E)
      → (not (finished s.response) && (ltb t 2 || s.word_sync)) ≡ false
      → rank_of s < suc t
      → ((f.word_sync ≡ s.word_sync) × ((s.response ≡ none) ⊎ (f.response ≡ s.response)))
      → (f.word_sync ≡ false → rank_of f ≤ 2)
      → rank_of f < suc t
  ahead_of t s f h l (w, inr e) c = rw e l
  ahead_of t s f h l (w, inl e) c = ahead s.word_sync t (rank_of f) (rw e at h) (λ x. c (w ∙ x))

  behind_of :
      (t : ℕ) (s f : Slot S E)
      → (not (finished s.response) && (t == 0 || ((t == 1) && s.word_sync))) ≡ false
      → rank_of s ≤ suc t
      → ((f.word_sync ≡ s.word_sync) × ((s.response ≡ none) ⊎ (f.response ≡ s.response)))
      → (f.word_sync ≡ false → rank_of f ≤ 2)
      → rank_of f ≤ suc t
  behind_of t s f h l (w, inr e) c = rw e l
  behind_of t s f h l (w, inl e) c =
      behind s.word_sync t (rank_of f) (rw e at h) (λ x. c (w ∙ x))
        (rank-bound (found_in f.response))

  All-behind :
      (t : ℕ) (ss fs : List (Slot S E))
      → any (λ s. not (finished s.response) && (t == 0 || ((t == 1) && s.word_sync))) ss ≡ false
      → All (λ x. rank_of x ≤ suc t) ss
      → Completes ss fs
      → WithinCapability fs
      → All (λ x. rank_of x ≤ suc t) fs
  All-behind t [] [] h a c i = tt
  All-behind t [] (f ∷ fs) h a c i = absurd c
  All-behind t (s ∷ ss) [] h a c i = absurd c
  All-behind t (s ∷ ss) (f ∷ fs) h (l, a) (c, cs) (i, is) =
      (behind_of t s f (or_left _ _ h) l c i, All-behind t ss fs (or_right _ _ h) a cs is)

  settled-Wins :
      (ss fs : List (Slot S E)) (k : ℕ) (r : Result S)
      → Wins ss k r
      → blocked_ahead ss k (tier r.lyrics) ≡ false
      → upgrade_pending ss k (tier r.lyrics) ≡ false
      → Completes ss fs
      → WithinCapability fs
      → Wins fs k r
  unfolding blocked_ahead upgrade_pending
  settled-Wins [] fs k r w b u c i = absurd w
  settled-Wins (s ∷ ss) [] k r w b u c i = absurd c
  settled-Wins (s ∷ ss) (f ∷ fs) zero r (e, a) b u ((w, inl n), cs) (i, is) =
      absurd (none-ne-some _ (rw n at e))
  settled-Wins (s ∷ ss) (f ∷ fs) zero r (e, a) b u ((w, inr n), cs) (i, is) =
      (rw n e, All-behind (tier r.lyrics) ss fs u a cs is)
  settled-Wins (s ∷ ss) (f ∷ fs) (suc k) r (l, w) b u (c, cs) (i, is) = (
    ahead_of (tier r.lyrics) s f (or_left _ _ b) l c i,
    settled-Wins ss fs k r w (or_right _ _ b) u cs is,
  )

  -- Once the race stops waiting, no reply still out can change its answer: whatever the providers
  -- that have not finished reply, the best of all results is the best result now, provided that no
  -- source without word sync answers with word sync.
  pub best_found-settled :
      (ss fs : List (Slot S E)) (best : Result S × ℕ)
      → best_found ss ≡ some best
      → is_settled ss best ≡ true
      → Completes ss fs
      → WithinCapability fs
      → best_found fs ≡ some best
  best_found-settled ss fs best e h c i = elim (winner_of ss) [
    | inl b ↦ absurd (none-ne-some _ (sym (best_found-IsBare ss b) ∙ e))
    | inr (k, (r, w)) ↦
        let same : (r, k) ≡ best = some-injective _ _ (sym (best_found-Wins ss k r w) ∙ e) in
        best_found-Wins fs k r (
          settled-Wins ss fs k r w
            (subst (λ x. blocked_ahead ss x.1 (tier x.0.lyrics) ≡ false) (sym same) (ground arith))
            (subst (λ x. upgrade_pending ss x.1 (tier x.0.lyrics) ≡ false) (sym same)
              (ground arith))
            c i)
        ∙ ap some same
  ]
