-- ===== src/Lyrics/Race/Patient.antt =====
-- The race against the lookup that waits for every provider: the order of the replies does not matter.
use mathlib.Core.Bool.{true≢false}
use dankgo.Prelude.{
  ℕ, zero, suc, ◌-◌, ◌≡◌, refl, inl, inr, Bool, true, false, not, ◌&&◌, ◌||◌, Option, none, some,
  List, [], ◌∷◌, arith, any, ltb, ◌==◌, ◌∙◌, sym, ap, take, drop, length, if◌then◌else◌, Bool-cases,
}
use dankgo.Lyrics.Tier.{Result, tier}
use dankgo.Lyrics.Race.{
  Slot, Response, Event, replied, Outcome, finished, best_found, blocked_ahead, upgrade_pending,
  is_settled, verdict, best_or, set_response, race, turn, judge, lookup_providers, open_slots, stop,
  go,
}
use dankgo.Lyrics.Race.Best.{IsBare, best_found-IsBare}
use dankgo.Lyrics.Race.Settled.{Completes, WithinCapability, best_found-settled}

pub is_positive : (n m : ℕ) → n ≡ suc m → (n == 0) ≡ false
is_positive n m h = ground arith

module _ {S E : Type 0} where
  -- The number of providers still out.
  abbrev pub waiting : List (Slot S E) → ℕ
  waiting [] = 0
  waiting (s ∷ ss) = if finished s.response then waiting ss else suc (waiting ss)

  abbrev pub Awaits : ℕ → List (Slot S E) → Type 0
  Awaits i [] = ⊥
  Awaits zero (s ∷ ss) = s.response ≡ none
  Awaits (suc i) (s ∷ ss) = Awaits i ss

  -- Every provider still out replies once, in some order.
  pub data Answers : List (Slot S E) → List (Event S E) → List (Slot S E) → Type 0 where
    all_in : (ss : List (Slot S E)) → waiting ss ≡ 0 → Answers ss [] ss
    one :
        (i : ℕ) (r : Response S E) (ss : List (Slot S E)) (es : List (Event S E))
        (fs : List (Slot S E))
        → Awaits i ss
        → Answers (set_response i r ss) es fs
        → Answers ss (replied i r ∷ es) fs

  -- The outcome of waiting for every provider.
  abbrev pub patient : List (Slot S E) → Outcome S E
  patient fs = best_or (verdict none fs) (best_found fs)

  waiting-set_response :
      (i : ℕ) (r : Response S E) (ss : List (Slot S E))
      → Awaits i ss
      → waiting ss ≡ suc (waiting (set_response i r ss))
  unfolding set_response
  waiting-set_response i r [] a = absurd a
  waiting-set_response zero r (s ∷ ss) a = rw a refl
  waiting-set_response (suc i) r (s ∷ ss) a = ground (arith, waiting-set_response i r ss a)

  Completes-self : (ss : List (Slot S E)) → Completes ss ss
  Completes-self [] = tt
  Completes-self (s ∷ ss) = ((refl, inr refl), Completes-self ss)

  Completes-set_response :
      (i : ℕ) (r : Response S E) (ss fs : List (Slot S E))
      → Awaits i ss
      → Completes (set_response i r ss) fs
      → Completes ss fs
  unfolding set_response
  Completes-set_response i r [] fs a c = absurd a
  Completes-set_response zero r (s ∷ ss) [] a c = absurd c
  Completes-set_response zero r (s ∷ ss) (f ∷ fs) a ((w, o), c) = ((w, inl a), c)
  Completes-set_response (suc i) r (s ∷ ss) [] a c = absurd c
  Completes-set_response (suc i) r (s ∷ ss) (f ∷ fs) a (o, c) =
      (o, Completes-set_response i r ss fs a c)

  Answers-Completes :
      (ss : List (Slot S E)) (es : List (Event S E)) (fs : List (Slot S E))
      → Answers ss es fs
      → Completes ss fs
  Answers-Completes ss es fs (all_in _ h) = Completes-self ss
  Answers-Completes ss es fs (one i r _ es' _ a n) =
      Completes-set_response i r ss fs a (Answers-Completes (set_response i r ss) es' fs n)

  none_out :
      (p : Slot S E → Bool) (ss : List (Slot S E))
      → waiting ss ≡ 0
      → any (λ s. not (finished s.response) && p s) ss ≡ false
  none_out p [] h = refl
  none_out p (s ∷ ss) h = ground (arith, none_out p ss)

  waiting-take : (n : ℕ) (ss : List (Slot S E)) → waiting ss ≡ 0 → waiting (take n ss) ≡ 0
  waiting-take zero ss h = refl
  waiting-take (suc n) [] h = refl
  waiting-take (suc n) (s ∷ ss) h = ground (arith, waiting-take n ss)

  waiting-drop : (n : ℕ) (ss : List (Slot S E)) → waiting ss ≡ 0 → waiting (drop n ss) ≡ 0
  waiting-drop zero ss h = h
  waiting-drop (suc n) [] h = refl
  waiting-drop (suc n) (s ∷ ss) h = ground (arith, waiting-drop n ss)

  -- With every provider back, nothing holds the best result back.
  settled_at_end :
      (ss : List (Slot S E)) (best : Result S × ℕ) → waiting ss ≡ 0 → is_settled ss best ≡ true
  unfolding blocked_ahead upgrade_pending
  settled_at_end ss best h =
      let t = tier best.0.lyrics in
      rw
        (
          none_out (λ s. ltb t 2 || s.word_sync) (take best.1 ss) (waiting-take best.1 ss h),
          none_out (λ s. t == 0 || ((t == 1) && s.word_sync)) (drop (suc best.1) ss)
              (waiting-drop (suc best.1) ss h),
        )
        refl

  judge-patient :
      (ss : List (Slot S E)) (n : ℕ) (g : Bool) (es : List (Event S E)) (fs : List (Slot S E))
      (o : Option (Result S × ℕ))
      → best_found ss ≡ o
      → Completes ss fs
      → WithinCapability fs
      → ((g' : Bool)
          → (waiting ss ≡ 0 → best_found ss ≡ none)
          → race (record { slots = ss; remaining = n; grace = g' }) es ≡ some (patient fs))
      → elim (judge (record { slots = ss; remaining = n; grace = g }) o) [
        | stop x ↦ some x
        | go st' ↦ race st' es
      ]
        ≡ some (patient fs)
  judge-patient ss n g es fs none e c i ih = ih g (λ h. e)
  judge-patient ss n g es fs (some best) e c i ih = elim (Bool-cases (is_settled ss best)) [
    | inl h ↦ rw (h, best_found-settled ss fs best e h c i) refl
    | inr h ↦ rw h (ih _ (λ z. absurd (true≢false (sym (settled_at_end ss best z) ∙ h))))
  ]

  race-patient :
      (ss : List (Slot S E)) (n : ℕ) (g : Bool) (es : List (Event S E)) (fs : List (Slot S E))
      → n ≡ waiting ss
      → (waiting ss ≡ 0 → best_found ss ≡ none)
      → Answers ss es fs
      → WithinCapability fs
      → race (record { slots = ss; remaining = n; grace = g }) es ≡ some (patient fs)
  unfolding race turn
  race-patient ss n g es fs e k (all_in _ h) i = rw (e ∙ h, k h) refl
  race-patient ss n g es fs e k (one j r _ es' _ a m) i =
      let ss' = set_response j r ss in
      let w = e ∙ waiting-set_response j r ss a in
      rw (is_positive n _ w) (
        judge-patient ss' (n - 1) g es' fs (best_found ss') refl (Answers-Completes ss' es' fs m) i
          (λ g' z. race-patient ss' (n - 1) g' es' fs (omega (arith, w)) z m i))

module _ (S E : Type 0) where
  pub waiting-open_slots : (ws : List Bool) → waiting (open_slots {S = S} {E = E} ws) ≡ length ws
  waiting-open_slots [] = refl
  waiting-open_slots (w ∷ ws) = ap suc (waiting-open_slots ws)

  pub open_slots-IsBare : (ws : List Bool) → IsBare (open_slots {S = S} {E = E} ws)
  open_slots-IsBare [] = tt
  open_slots-IsBare (w ∷ ws) = (refl, open_slots-IsBare ws)

module _ {S E : Type 0} where
  -- The race decides as if it waited for every provider: in whatever order the providers reply, each
  -- once, and however early the race returns, the outcome is the best of all results, or what the
  -- errors say when there is none. No source without word sync may answer with word sync, and
  -- neither timer fires.
  pub lookup_providers-patient :
      (ws : List Bool) (es : List (Event S E)) (fs : List (Slot S E))
      → Answers (open_slots ws) es fs
      → WithinCapability fs
      → lookup_providers ws es ≡ some (patient fs)
  unfolding lookup_providers
  lookup_providers-patient ws es fs m i =
      race-patient (open_slots ws) (length ws) false es fs (sym (waiting-open_slots S E ws))
        (λ h. best_found-IsBare (open_slots ws) (open_slots-IsBare S E ws)) m i
