-- ===== src/Lyrics/Race.antt =====
-- lyrics/lyrics.go: lookupProviders, the race of the providers. The slices providers, finished and
-- results are one list of slots; the events of the select statement are data. E is Go's error.
pub mod Best
pub mod Settled
pub mod Patient
pub mod Grace
use dankgo.Prelude.{
  ℕ, zero, suc, ◌-◌, Bool, true, false, not, ◌&&◌, ◌||◌, Option, none, some, List, [], ◌∷◌,
  if◌then◌else◌, ltb, ◌==◌, any, take, drop, length,
}
use dankgo.Lyrics.Tier.{Result, tier}

pub record Response (S E : Type 0) : Type 0 where
  pub result : Option (Result S)
  pub err : Option E

-- A provider, with its response once it has finished.
pub record Slot (S E : Type 0) : Type 0 where
  pub word_sync : Bool
  pub response : Option (Response S E)

pub data Event (S E : Type 0) : Type 0 where
  replied : ℕ → Response S E → Event S E
  expired : Event S E
  cancelled : Event S E

-- How the lookup ends: with a result, with the answer that there are no lyrics, with an error, or
-- with neither a result nor an error.
pub data Outcome (S E : Type 0) : Type 0 where
  answer : Result S → Outcome S E
  no_lyrics : Outcome S E
  failure : E → Outcome S E
  timed_out : Outcome S E
  neither : Outcome S E

-- The variables of the loop: `grace` is whether the grace timer runs.
pub record Race (S E : Type 0) : Type 0 where
  pub slots : List (Slot S E)
  pub remaining : ℕ
  pub grace : Bool

pub data Turn (S E : Type 0) : Type 0 where
  stop : Outcome S E → Turn S E
  go : Race S E → Turn S E

module _ {S : Type 0} where
  abbrev pub if_found : Option (Result S) → Option (Result S)
  if_found none = none
  if_found (some r) = if r.found then some r else none

  abbrev pub beats : Result S → Option (Result S × ℕ) → Bool
  beats r none = true
  beats r (some best) = ltb (tier best.0.lyrics) (tier r.lyrics)

  abbrev pub better : ℕ → Option (Result S) → Option (Result S × ℕ) → Option (Result S × ℕ)
  better i none best = best
  better i (some r) best = if beats r best then some (r, i) else best

module _ {S E : Type 0} where
  abbrev pub finished : Option (Response S E) → Bool
  finished none = false
  finished (some r) = true

  -- The result of a response that counts: there is one and it is found.
  abbrev pub found_in : Option (Response S E) → Option (Result S)
  found_in none = none
  found_in (some r) = if_found r.result

  -- The loop of bestFound from an index on.
  unfoldable pub best_from : ℕ → Option (Result S × ℕ) → List (Slot S E) → Option (Result S × ℕ)
  best_from i best [] = best
  best_from i best (s ∷ ss) = best_from (suc i) (better i (found_in s.response) best) ss

  unfoldable pub best_found : List (Slot S E) → Option (Result S × ℕ)
  unfolding best_from
  best_found slots = best_from 0 none slots

  unfoldable pub blocked_ahead : List (Slot S E) → ℕ → ℕ → Bool
  blocked_ahead slots index tier =
      any (λ s. not (finished s.response) && (ltb tier 2 || s.word_sync)) (take index slots)

  unfoldable pub upgrade_pending : List (Slot S E) → ℕ → ℕ → Bool
  upgrade_pending slots index tier =
      any (λ s. not (finished s.response) && (tier == 0 || ((tier == 1) && s.word_sync)))
        (drop (suc index) slots)

  unfoldable pub leader_found : List (Slot S E) → Bool
  leader_found [] = false
  leader_found (s ∷ ss) = elim s.response [
    | none ↦ false
    | some r ↦ elim (if_found r.result) [ none ↦ leader_found ss | some f ↦ true ]
  ]

  abbrev pub last_err : Option E → Outcome S E
  last_err none = neither
  last_err (some e) = failure e

  abbrev pub err_of : Option (Response S E) → Option E
  err_of none = none
  err_of (some r) = r.err

  -- The loop after the race, with lookupErr.
  unfoldable pub verdict : Option E → List (Slot S E) → Outcome S E
  verdict e [] = last_err e
  verdict e (s ∷ ss) = elim (err_of s.response) [
    | none ↦ no_lyrics
    | some e' ↦ verdict (some e') ss
  ]

  unfoldable pub set_response : ℕ → Response S E → List (Slot S E) → List (Slot S E)
  set_response i r [] = []
  set_response zero r (s ∷ ss) = record s { response = some r } ∷ ss
  set_response (suc i) r (s ∷ ss) = s ∷ set_response i r ss

  abbrev pub best_or : Outcome S E → Option (Result S × ℕ) → Outcome S E
  best_or o none = o
  best_or o (some best) = answer best.0

  -- Whether nothing still out can beat the best result.
  abbrev pub is_settled : List (Slot S E) → Result S × ℕ → Bool
  is_settled slots best =
      not (blocked_ahead slots best.1 (tier best.0.lyrics))
      && not (upgrade_pending slots best.1 (tier best.0.lyrics))

  -- The part of the loop behind the select statement.
  abbrev pub judge : Race S E → Option (Result S × ℕ) → Turn S E
  judge st none = go st
  judge st (some best) =
      if is_settled st.slots best
      then stop (answer best.0)
      else go (record st { grace = st.grace || leader_found st.slots })

  unfoldable pub turn : Race S E → Event S E → Turn S E
  turn st (replied i r) =
      let slots = set_response i r st.slots in
      judge (record { slots = slots; remaining = st.remaining - 1; grace = st.grace })
        (best_found slots)
  turn st expired = if st.grace then stop (best_or neither (best_found st.slots)) else go st
  turn st cancelled = stop (best_or timed_out (best_found st.slots))

  -- `none`: the events end while the loop waits.
  unfoldable pub race : Race S E → List (Event S E) → Option (Outcome S E)
  unfolding turn verdict
  race st [] = if st.remaining == 0 then some (verdict none st.slots) else none
  race st (e ∷ es) =
      if st.remaining == 0
      then some (verdict none st.slots)
      else elim (turn st e) [ stop o ↦ some o | go st' ↦ race st' es ]

  abbrev pub open_slots : List Bool → List (Slot S E)
  open_slots [] = []
  open_slots (w ∷ ws) = record { word_sync = w; response = none } ∷ open_slots ws

  -- The race of providers of which only the capability for word sync matters here.
  unfoldable pub lookup_providers : List Bool → List (Event S E) → Option (Outcome S E)
  unfolding race
  lookup_providers providers events =
      race (record { slots = open_slots providers; remaining = length providers; grace = false })
        events
