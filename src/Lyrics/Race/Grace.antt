-- ===== src/Lyrics/Race/Grace.antt =====
-- The grace timer: it runs only once a result is found, so the race never ends with neither a result
-- nor an error.
use mathlib.Core.Option.{none-ne-some}
use mathlib.Core.Bool.{true≢false}
use dankgo.Prelude.{
  ℕ, zero, suc, ◌-◌, ◌≡◌, ◌≢◌, refl, ◌⊎◌, inl, inr, Bool, true, false, Option, none, some, List, [],
  ◌∷◌, arith, ◌==◌, ◌∙◌, sym, length, if◌then◌else◌, Option-cases, Bool-cases,
}
use dankgo.Lyrics.Tier.{Result}
use dankgo.Lyrics.Race.{
  Slot, Response, Event, replied, expired, cancelled, Outcome, answer, no_lyrics, failure,
  timed_out, neither, best_found, is_settled, verdict, best_or, set_response, race, turn, judge,
  lookup_providers, open_slots, stop, go, err_of,
}
use dankgo.Lyrics.Race.Best.{IsBare, winner_of, best_found-Wins, best_found-IsBare}
use dankgo.Lyrics.Race.Patient.{Awaits}

module _ {S E : Type 0} where
  -- Every reply comes from a provider that is still out.
  abbrev pub Legal : List (Slot S E) → List (Event S E) → Type 0
  Legal ss [] = Unit
  Legal ss (replied i r ∷ es) = Awaits i ss × Legal (set_response i r ss) es
  Legal ss (expired ∷ es) = Legal ss es
  Legal ss (cancelled ∷ es) = Legal ss es

  abbrev is_neither : Outcome S E → Bool
  is_neither (answer r) = false
  is_neither no_lyrics = false
  is_neither (failure e) = false
  is_neither timed_out = false
  is_neither neither = true

  IsBare-of : (ss : List (Slot S E)) → best_found ss ≡ none → IsBare ss
  IsBare-of ss e = elim (winner_of ss) [
    | inl b ↦ b
    | inr (k, (r, w)) ↦ absurd (none-ne-some _ (sym e ∙ best_found-Wins ss k r w))
  ]

  IsBare-set_response :
      (i : ℕ) (r : Response S E) (ss : List (Slot S E))
      → Awaits i ss
      → IsBare (set_response i r ss)
      → IsBare ss
  unfolding set_response
  IsBare-set_response i r [] a b = tt
  IsBare-set_response zero r (s ∷ ss) a (e, b) = (rw a refl, b)
  IsBare-set_response (suc i) r (s ∷ ss) a (e, b) = (e, IsBare-set_response i r ss a b)

  -- A reply never takes the best result away.
  best_found-set_response :
      (i : ℕ) (r : Response S E) (ss : List (Slot S E))
      → Awaits i ss
      → best_found (set_response i r ss) ≡ none
      → best_found ss ≡ none
  best_found-set_response i r ss a e =
      best_found-IsBare ss (IsBare-set_response i r ss a (IsBare-of (set_response i r ss) e))

  -- The loop after the race ends with an error or with the answer that there are no lyrics.
  verdict-decides :
      (e : Option E) (s : Slot S E) (ss : List (Slot S E)) → is_neither (verdict e (s ∷ ss)) ≡ false
  unfolding verdict
  verdict-decides e s [] = ground arith
  verdict-decides e s (x ∷ xs) = elim (Option-cases (err_of s.response)) [
    | inl h ↦ rw (h, verdict) refl
    | inr (e', h) ↦ rw (h, verdict) (verdict-decides (some e') x xs)
  ]

  abbrev pub IsNonempty : List (Slot S E) → Type 0
  IsNonempty [] = ⊥
  IsNonempty (s ∷ ss) = Unit

  IsNonempty-set_response :
      (i : ℕ) (r : Response S E) (ss : List (Slot S E))
      → IsNonempty ss
      → IsNonempty (set_response i r ss)
  unfolding set_response
  IsNonempty-set_response i r [] h = h
  IsNonempty-set_response zero r (s ∷ ss) h = tt
  IsNonempty-set_response (suc i) r (s ∷ ss) h = tt

  verdict-IsNonempty : (ss : List (Slot S E)) → IsNonempty ss → is_neither (verdict none ss) ≡ false
  verdict-IsNonempty [] h = absurd h
  verdict-IsNonempty (s ∷ ss) h = verdict-decides none s ss

  -- The race still waits, or it has ended with a result, an answer or an error.
  abbrev Decided : Option (Outcome S E) → Type 0
  Decided none = Unit
  Decided (some o) = is_neither o ≡ false

  at_end :
      (b : Bool) (ss : List (Slot S E)) (o : Option (Outcome S E))
      → IsNonempty ss
      → Decided o
      → Decided (if b then some (verdict none ss) else o)
  at_end true ss o h d = verdict-IsNonempty ss h
  at_end false ss o h d = d

  judge-decides :
      (ss : List (Slot S E)) (n : ℕ) (g : Bool) (es : List (Event S E)) (o : Option (Result S × ℕ))
      → best_found ss ≡ o
      → ((g' : Bool)
          → (g' ≡ true → (g ≡ true) ⊎ (best_found ss ≢ none))
          → Decided (race (record { slots = ss; remaining = n; grace = g' }) es))
      → Decided (elim (judge (record { slots = ss; remaining = n; grace = g }) o) [
        | stop x ↦ some x
        | go st' ↦ race st' es
      ])
  judge-decides ss n g es none e ih = ih g (λ h. inl h)
  judge-decides ss n g es (some best) e ih = elim (Bool-cases (is_settled ss best)) [
    | inl h ↦ rw h refl
    | inr h ↦ rw h (ih _ (λ z. inr (λ b. none-ne-some _ (sym b ∙ e))))
  ]

  expired-decides :
      (ss : List (Slot S E)) (n : ℕ) (g : Bool) (es : List (Event S E))
      → (g ≡ true → best_found ss ≢ none)
      → Decided (race (record { slots = ss; remaining = n; grace = g }) es)
      → Decided (elim (turn (record { slots = ss; remaining = n; grace = g }) expired) [
        | stop x ↦ some x
        | go st' ↦ race st' es
      ])
  unfolding turn
  expired-decides ss n true es k ih = elim (Option-cases (best_found ss)) [
    | inl e ↦ absurd (k refl e)
    | inr (b, e) ↦ rw e refl
  ]
  expired-decides ss n false es k ih = ih

  race-decides :
      (es : List (Event S E)) (ss : List (Slot S E)) (n : ℕ) (g : Bool)
      → IsNonempty ss
      → (g ≡ true → best_found ss ≢ none)
      → Legal ss es
      → Decided (race (record { slots = ss; remaining = n; grace = g }) es)
  unfolding race turn
  race-decides [] ss n g h k l = at_end (n == 0) ss none h tt
  race-decides (replied i r ∷ es) ss n g h k (a, l) =
      let ss' = set_response i r ss in
      at_end (n == 0) ss _ h (
        judge-decides ss' (n - 1) g es (best_found ss') refl (λ g' z.
          race-decides es ss' (n - 1) g' (IsNonempty-set_response i r ss h)
            (λ q. elim (z q) [ inl t ↦ λ b. k t (best_found-set_response i r ss a b) | inr b ↦ b ])
            l))
  race-decides (expired ∷ es) ss n g h k l =
      at_end (n == 0) ss _ h (expired-decides ss n g es k (race-decides es ss n g h k l))
  race-decides (cancelled ∷ es) ss n g h k l =
      at_end (n == 0) ss _ h (cancelled_now (best_found ss))
    where
      cancelled_now : (o : Option (Result S × ℕ)) → is_neither (best_or timed_out o) ≡ false
      cancelled_now none = refl
      cancelled_now (some b) = refl

  -- However replies, the grace timer and the deadline are interleaved, a lookup over at least one
  -- provider never ends with neither a result nor an error.
  pub lookup_providers-decides :
      (w : Bool) (ws : List Bool) (es : List (Event S E))
      → Legal (open_slots (w ∷ ws)) es
      → lookup_providers (w ∷ ws) es ≢ some neither
  unfolding lookup_providers
  lookup_providers-decides w ws es l e =
      let d =
        race-decides es (open_slots (w ∷ ws)) (suc (length ws)) false tt
          (λ h. absurd (true≢false (sym h))) l in
      true≢false (rw e at d)
