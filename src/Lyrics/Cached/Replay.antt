-- ===== src/Lyrics/Cached/Replay.antt =====
-- What a lookup has answered, a later lookup that only reads the cache answers again.
use dankgo.Prelude.{
  ℕ, ◌≡◌, refl, sym, ap, ◌∙◌, Bool, true, false, not, ◌&&◌, Option, none, some, if◌then◌else◌, ◌==◌,
  arith, Bool-cases, inl, inr, subst,
}
use dankgo.Prelude.Text.{Bytes, eqb_refl}
use dankgo.Lyrics.Tier.{Lyrics, Result}
use dankgo.Lyrics.Cached.{
  CacheEntry, Fetched, uncached, not_found, failed, got, Call, Reply, result, error, ended,
  rate_limited, Client, nothing, awaits_word_sync, valid, load_cache, store_cache, from_cache,
  is_empty, word_sync_of, upgrade_cache, missed, received, ask, answer_from, with_entry,
  lookup_provider,
}

module _ {S : Type 0} where
  -- The lyrics that a cached entry stands for at any time, and those that a result carries.
  abbrev pub kept : Option (CacheEntry S) → Option (Lyrics S)
  kept none = none
  kept (some e) = if not (e.version == 4) then none else if e.miss then none else some e.lyrics

  abbrev pub shown : Result S → Option (Lyrics S)
  shown r = if r.found then some r.lyrics else none

  abbrev read_back : Option (CacheEntry S) → Result S
  read_back none = nothing
  read_back (some e) = from_cache e

  shown-valid : (now : ℕ) (o : Option (CacheEntry S)) → shown (read_back (valid now o)) ≡ kept o
  unfolding from_cache
  shown-valid now none = refl
  shown-valid now (some e) = ground arith

  -- What JSON makes of lyrics, where there are any.
  abbrev pub through : (Lyrics S → Lyrics S) → Option (Lyrics S) → Option (Lyrics S)
  through json none = none
  through json (some l) = some (json l)

  -- The lyrics of the entry have been through JSON.
  abbrev pub IsRead : (Lyrics S → Lyrics S) → Bytes → Client S → Type 0
  IsRead json key c = kept (c.cache key) ≡ through json (kept (c.cache key))

  kept-store_cache :
      (json : Lyrics S → Lyrics S) (written : Bool) (now : ℕ) (key : Bytes) (e : CacheEntry S)
      (c : Client S)
      → written ≡ true
      → c.has_dir ≡ true
      → (kept ((store_cache json written now key e c).cache key)
          ≡ through json (if e.miss then none else some e.lyrics))
        × ((store_cache json written now key e c).has_dir ≡ true)
  unfolding store_cache
  kept-store_cache json written now key e c w h =
      rw (h, w, eqb_refl key) (by_miss e.miss e.lyrics, refl)
    where
      by_miss :
          (miss : Bool) (l : Lyrics S)
          → (if miss then none else some (json l)) ≡ through json (if miss then none else some l)
      by_miss true l = refl
      by_miss false l = refl

  shown-from_cache :
      (e : CacheEntry S) → shown (from_cache e) ≡ (if e.miss then none else some e.lyrics)
  unfolding from_cache
  shown-from_cache e = ground arith

  load_cache-valid :
      (now : ℕ) (key : Bytes) (c : Client S)
      → c.has_dir ≡ true
      → load_cache now key c ≡ valid now (c.cache key)
  unfolding load_cache
  load_cache-valid now key c h = ap (λ (b : Bool). if b then valid now (c.cache key) else none) h

module _ {S E : Type 0} (trim : Bytes → Bytes) (json : Lyrics S → Lyrics S) where
  -- The cache stands for what the reply carries.
  abbrev Matches : Bytes → Client S × Reply S E → Type 0
  Matches key (c, result r) = (kept (c.cache key) ≡ through json (shown r)) × (c.has_dir ≡ true)
  Matches key (c, error e) = Unit
  Matches key (c, ended) = Unit
  Matches key (c, rate_limited) = Unit

  missed-Matches :
      (call : Call S E) (key : Bytes) (c : Client S)
      → call.written ≡ true
      → c.has_dir ≡ true
      → Matches key (missed trim json call key c)
  missed-Matches call key c w h = kept-store_cache json call.written call.now key _ c w h

  received-Matches :
      (call : Call S E) (provider key : Bytes) (c : Client S) (l : Lyrics S)
      → call.written ≡ true
      → c.has_dir ≡ true
      → Matches key (received trim json call provider key c l)
  received-Matches call provider key c l w h = elim (Bool-cases (is_empty trim l)) [
    | inl e ↦ rw e (missed-Matches call key c w h)
    | inr e ↦ rw e (kept-store_cache json call.written call.now key _ c w h)
  ]

  fetched-Matches :
      (call : Call S E) (provider key : Bytes) (c : Client S) (f : Fetched S E)
      → call.written ≡ true
      → c.has_dir ≡ true
      → kept (c.cache key) ≡ none
      → Matches key (elim f [
        | uncached ↦ (c, result nothing)
        | failed e ↦ (c, error e)
        | not_found ↦ missed trim json call key c
        | got l ↦ received trim json call provider key c l
      ])
  fetched-Matches call provider key c uncached w h n = (n, h)
  fetched-Matches call provider key c (failed e) w h n = tt
  fetched-Matches call provider key c not_found w h n = missed-Matches call key c w h
  fetched-Matches call provider key c (got l) w h n = received-Matches call provider key c l w h

  ask-Matches :
      (call : Call S E) (cache_only : Bool) (provider key : Bytes) (c : Client S)
      → call.written ≡ true
      → c.has_dir ≡ true
      → kept (c.cache key) ≡ none
      → Matches key (ask trim json call cache_only provider key c)
  ask-Matches call true provider key c w h n = (n, h)
  ask-Matches call false provider key c w h n = elim (Bool-cases call.cancelled) [
    | inl e ↦ rw e tt
    | inr e ↦ elim (Bool-cases call.allowed) [
      | inl a ↦ rw (e, a) (fetched-Matches call provider key c call.fetch w h n)
      | inr a ↦ rw (e, a) tt
    ]
  ]

  upgrade_fetched-Matches :
      (call : Call S E) (key : Bytes) (e : CacheEntry S) (c : Client S) (f : Fetched S E)
      → call.written ≡ true
      → c.has_dir ≡ true
      → kept (c.cache key) ≡ through json (shown (from_cache e))
      → Matches key (
          answer_from (elim f [
            | uncached ↦ (c, e)
            | failed x ↦ (c, e)
            | not_found ↦ (store_cache json call.written call.now key e c, e)
            | got l ↦
                (store_cache json call.written call.now key (word_sync_of e l) c, word_sync_of e l)
          ]))
  upgrade_fetched-Matches call key e c uncached w h k = (k, h)
  upgrade_fetched-Matches call key e c (failed x) w h k = (k, h)
  upgrade_fetched-Matches call key e c not_found w h k =
      let s = kept-store_cache json call.written call.now key e c w h in
      (s.0 ∙ ap (through json) (sym (shown-from_cache e)), s.1)
  upgrade_fetched-Matches call key e c (got l) w h k =
      let s = kept-store_cache json call.written call.now key (word_sync_of e l) c w h in
      (s.0 ∙ ap (through json) (sym (shown-from_cache (word_sync_of e l))), s.1)

  upgrade_cache-Matches :
      (call : Call S E) (key : Bytes) (e : CacheEntry S) (c : Client S)
      → call.written ≡ true
      → c.has_dir ≡ true
      → kept (c.cache key) ≡ through json (shown (from_cache e))
      → Matches key (answer_from (upgrade_cache json call key e c))
  unfolding upgrade_cache
  upgrade_cache-Matches call key e c w h k = elim (Bool-cases call.allowed) [
    | inl a ↦ rw a (upgrade_fetched-Matches call key e c call.fetch w h k)
    | inr a ↦ rw a (k, h)
  ]

  with_entry-Matches :
      (call : Call S E) (cache_only : Bool) (provider key : Bytes) (c : Client S)
      (v : Option (CacheEntry S))
      → call.written ≡ true
      → c.has_dir ≡ true
      → kept (c.cache key) ≡ through json (shown (read_back v))
      → Matches key (with_entry trim json call cache_only provider key c v)
  with_entry-Matches call cache_only provider key c none w h k =
      ask-Matches call cache_only provider key c w h k
  with_entry-Matches call cache_only provider key c (some e) w h k =
      elim (Bool-cases (c.upgrade && (not cache_only && awaits_word_sync call.now e))) [
        | inl u ↦ rw u (upgrade_cache-Matches call key e c w h k)
        | inr u ↦ rw u (k, h)
      ]

  lookup_provider-Matches :
      (call : Call S E) (cache_only : Bool) (provider key : Bytes) (c : Client S)
      → call.written ≡ true
      → c.has_dir ≡ true
      → IsRead json key c
      → Matches key (lookup_provider trim json call cache_only provider key c)
  unfolding lookup_provider
  lookup_provider-Matches call cache_only provider key c w h k =
      with_entry-Matches call cache_only provider key c (load_cache call.now key c) w h (
        k
        ∙ ap (through json) (
            sym (
              ap (λ o. shown (read_back o)) (load_cache-valid call.now key c h)
              ∙ shown-valid call.now (c.cache key))))

  only_cache :
      (call : Call S E) (provider key : Bytes) (c : Client S) (v : Option (CacheEntry S))
      → with_entry trim json call true provider key c v ≡ (c, result (read_back v))
  only_cache call provider key c none = refl
  only_cache call provider key c (some e) = ground arith

  lookup_provider_cached :
      (call : Call S E) (provider key : Bytes) (c : Client S)
      → c.has_dir ≡ true
      → lookup_provider trim json call true provider key c
        ≡ (c, result (read_back (valid call.now (c.cache key))))
  unfolding lookup_provider
  lookup_provider_cached call provider key c h =
      ap (with_entry trim json call true provider key c) (load_cache-valid call.now key c h)
      ∙ only_cache call provider key c (valid call.now (c.cache key))

  -- What a lookup has answered without an error, fetched, upgraded or cached, a later lookup that only
  -- reads the cache answers again at any time: lyrics are found exactly if they were found, and they are
  -- what JSON makes of those that were found. This is for a client with a cache directory, whose entry for
  -- the key, if it has one, is as JSON gives it, where the first lookup's write to the cache, if it makes
  -- one, succeeds, and nothing else changes the cache between the two.
  pub lookup_provider-again :
      (call again : Call S E) (cache_only : Bool) (provider key : Bytes) (c c' : Client S)
      (r : Result S)
      → call.written ≡ true
      → c.has_dir ≡ true
      → IsRead json key c
      → lookup_provider trim json call cache_only provider key c ≡ (c', result r)
      → (r' : Result S) × ((lookup_provider trim json again true provider key c' ≡ (c', result r'))
          × (shown r' ≡ through json (shown r)))
  lookup_provider-again call again cache_only provider key c c' r w h k e =
      let m : Matches key (c', result r) =
        subst (Matches key) e (lookup_provider-Matches call cache_only provider key c w h k) in
      (
        read_back (valid again.now (c'.cache key)),
        (
          lookup_provider_cached again provider key c' (m.1),
          shown-valid again.now (c'.cache key) ∙ m.0,
        ),
      )
