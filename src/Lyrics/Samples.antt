-- ===== src/Lyrics/Samples.antt =====
-- A race of three providers, the last of them without word sync: the theorems on the lookup at a run.
use mathlib.Core.Bool.{true≢false}
use dankgo.Prelude.{
  ℕ, ◌≡◌, ◌≢◌, refl, inl, inr, Bool, true, false, Option, none, some, List, [], ◌∷◌, arith,
}
use dankgo.Prelude.Text.{codes}
use dankgo.Lyrics.Tier.{Word, Line, Lyrics, lyrics_of, unknown, ttml, Result, tier, word_synced}
use dankgo.Lyrics.Race.{
  Response, Slot, Event, replied, expired, neither, best_found, best_from, blocked_ahead,
  upgrade_pending, set_response, lookup_providers, open_slots,
}
use dankgo.Lyrics.Race.Settled.{best_found-settled}
use dankgo.Lyrics.Race.Patient.{Answers, all_in, one, patient, lookup_providers-patient}
use dankgo.Lyrics.Race.Grace.{lookup_providers-decides}
use dankgo.Lyrics.Cached.{
  Client, Call, Fetched, got, uncached, result, lookup_provider, load_cache, store_cache,
}
use dankgo.Lyrics.Cached.Replay.{shown, through, lookup_provider-again}

abbrev word : Word ℕ
word = record { start = 1; end = 2; text = codes "la" }

abbrev line : List (Word ℕ) → Line ℕ
line ws = record {
  start = 1;
  end = 2;
  text = codes "la";
  words = ws;
  voice = [];
  background = false;
  group = 0;
}

abbrev answered : List (Word ℕ) → Result ℕ
answered ws = record {
  found = true;
  source = codes "unison";
  cached = false;
  lyrics = record (lyrics_of (line ws ∷ [])) { source = ttml; raw = codes "<tt>" };
}

abbrev reply : List (Word ℕ) → Response ℕ ℕ
reply ws = record { result = some (answered ws); err = none }

abbrev broken : Response ℕ ℕ
broken = record { result = none; err = some 1 }

abbrev slot : Bool → Option (Response ℕ ℕ) → Slot ℕ ℕ
slot w r = record { word_sync = w; response = r }

-- The second has word sync, the first has failed, the third is still out.
abbrev slots_now : List (Slot ℕ ℕ)
slots_now = slot true (some broken) ∷ slot true (some (reply (word ∷ []))) ∷ slot false none ∷ []

abbrev slots_later : List (Slot ℕ ℕ)
slots_later =
    slot true (some broken)
    ∷ slot true (some (reply (word ∷ [])))
    ∷ slot false (some (reply []))
    ∷ []

best_found-settled_example : best_found slots_later ≡ some (answered (word ∷ []), 1)
unfolding best_found best_from tier word_synced blocked_ahead upgrade_pending
best_found-settled_example =
    best_found-settled slots_now slots_later (answered (word ∷ []), 1) refl refl
      ((refl, inr refl), ((refl, inr refl), ((refl, inl refl), tt)))
      (λ h. omega arith, (λ h. absurd (true≢false h), (λ h. omega arith, tt)))

abbrev replies : List (Event ℕ ℕ)
replies = replied 2 (reply []) ∷ replied 1 (reply (word ∷ [])) ∷ replied 0 broken ∷ []

replies_answer : Answers (open_slots (true ∷ true ∷ false ∷ [])) replies slots_later
unfolding set_response
replies_answer =
    one 2 (reply []) _ _ _ refl
      (one 1 (reply (word ∷ [])) _ _ _ refl (one 0 broken _ _ _ refl (all_in slots_later refl)))

lookup_providers-patient_example :
    lookup_providers (true ∷ true ∷ false ∷ []) replies ≡ some (patient slots_later)
unfolding tier word_synced
lookup_providers-patient_example =
    lookup_providers-patient (true ∷ true ∷ false ∷ []) replies slots_later replies_answer
      (λ h. omega arith, (λ h. absurd (true≢false h), (λ h. omega arith, tt)))

-- The grace timer fires after the leader's line sync.
lookup_providers-decides_example :
    lookup_providers (true ∷ true ∷ []) (replied 0 (reply []) ∷ expired ∷ []) ≢ some neither
lookup_providers-decides_example =
    lookup_providers-decides true (true ∷ []) (replied 0 (reply []) ∷ expired ∷ []) (refl, tt)

abbrev blank_client : Client ℕ
blank_client = record { has_dir = true; upgrade = true; cache = λ k. none }

abbrev at_time : ℕ → Fetched ℕ ℕ → Call ℕ ℕ
at_time now fetch = record {
  now = now;
  cancelled = false;
  allowed = true;
  written = true;
  fetch = fetch;
}

-- The source and the raw text are not written.
abbrev json : Lyrics ℕ → Lyrics ℕ
json l = record l { source = unknown; raw = [] }

abbrev stocked : Client ℕ
stocked =
    (lookup_provider (λ s. s) json (at_time 5 (got (answered (word ∷ [])).lyrics)) false
      (codes "unison") (codes "key") blank_client).0

fetched_once :
    lookup_provider
      (λ s. s)
      json
      (at_time 5 (got (answered (word ∷ [])).lyrics))
      false
      (codes "unison")
      (codes "key")
      blank_client
    ≡ (stocked, result (answered (word ∷ [])))
unfolding lookup_provider load_cache store_cache
fetched_once = refl

lookup_provider-again_example :
    (r' : Result ℕ) × ((lookup_provider
          (λ s. s)
          json
          (at_time 9 uncached)
          true
          (codes "unison")
          (codes "key")
          stocked
        ≡ (stocked, result r'))
      × (shown r' ≡ through json (shown (answered (word ∷ [])))))
lookup_provider-again_example =
    lookup_provider-again (λ s. s) json (at_time 5 (got (answered (word ∷ [])).lyrics))
      (at_time 9 uncached) false (codes "unison") (codes "key") blank_client stocked
      (answered (word ∷ [])) refl refl refl fetched_once
