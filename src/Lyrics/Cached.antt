-- ===== src/Lyrics/Cached.antt =====
-- lyrics/cache.go and lookupProvider of lyrics/lyrics.go: one provider behind the cache. Files and the rate
-- limit are outside: the cache maps a key to what reading its file gives, and what the limiter and the
-- provider answer and whether a file gets written are part of a call. JSON is a parameter: what Unmarshal
-- makes of the lyrics that Marshal wrote, which lose at least Source and raw. Times are nanoseconds.
pub mod Replay
use dankgo.Prelude.{
  ℕ, ◌+◌, ◌-◌, ◌*◌, ◌/◌, ◌^◌, Bool, true, false, not, ◌&&◌, ◌||◌, Option, none, some, List, [], ◌∷◌,
  if◌then◌else◌, ltb, ◌==◌,
}
use dankgo.Prelude.Text.{Bytes, eqb}
use dankgo.Lyrics.Tier.{Lyrics, lyrics_of, Result, nonempty, word_synced}

abbrev pub second : ℕ
second = 1000000000

-- negativeTTL and upgradeTTL, both 14 days.
abbrev pub ttl : ℕ
ttl = 1209600 * second

abbrev since : ℕ → ℕ → ℕ
since now fetched = now - fetched * second

pub record CacheEntry (S : Type 0) : Type 0 where
  pub version : ℕ
  pub fetched : ℕ
  pub source : Bytes
  pub miss : Bool
  pub lyrics : Lyrics S

-- What Fetch returns: errUncached, errNotFound, another error, or lyrics. Nil lyrics without an error
-- are left out.
pub data Fetched (S E : Type 0) : Type 0 where
  uncached : Fetched S E
  not_found : Fetched S E
  failed : E → Fetched S E
  got : Lyrics S → Fetched S E

-- The answers that one call meets. Where `written` is false, Marshal, a directory, the temporary file, a
-- write or the rename of storeCache fails.
pub record Call (S E : Type 0) : Type 0 where
  pub now : ℕ
  pub cancelled : Bool
  pub allowed : Bool
  pub written : Bool
  pub fetch : Fetched S E

pub data Reply (S E : Type 0) : Type 0 where
  result : Result S → Reply S E
  error : E → Reply S E
  ended : Reply S E
  rate_limited : Reply S E

pub record Client (S : Type 0) : Type 0 where
  pub has_dir : Bool
  pub upgrade : Bool
  pub cache : Bytes → Option (CacheEntry S)

module _ {S : Type 0} where
  abbrev pub no_lyrics : Lyrics S
  no_lyrics = lyrics_of []

  -- &Result{}
  abbrev pub nothing : Result S
  nothing = record { found = false; source = []; cached = false; lyrics = no_lyrics }

  unfoldable pub awaits_word_sync : ℕ → CacheEntry S → Bool
  awaits_word_sync now e =
      nonempty e.lyrics.synced && (not (word_synced e.lyrics) && ltb ttl (since now e.fetched))

  abbrev pub valid : ℕ → Option (CacheEntry S) → Option (CacheEntry S)
  valid now none = none
  valid now (some e) =
      if not (e.version == 4)
      then none
      else if e.miss && ltb ttl (since now e.fetched)
      then none
      else some e

  unfoldable pub load_cache : ℕ → Bytes → Client S → Option (CacheEntry S)
  load_cache now key c = if c.has_dir then valid now (c.cache key) else none

  unfoldable pub store_cache :
      (Lyrics S → Lyrics S) → Bool → ℕ → Bytes → CacheEntry S → Client S → Client S
  store_cache json written now key e c =
      let stamped = record e { version = 4; fetched = now / second; lyrics = json e.lyrics } in
      if c.has_dir && written
      then record c { cache = λ k. if eqb key k then some stamped else c.cache k }
      else c

  unfoldable pub from_cache : CacheEntry S → Result S
  from_cache e =
      if e.miss
      then record nothing { cached = true }
      else record { found = true; source = e.source; cached = true; lyrics = e.lyrics }

  -- Lyrics.Empty; `trim` is strings.TrimSpace.
  abbrev pub is_empty : (Bytes → Bytes) → Lyrics S → Bool
  is_empty trim l = not l.instrumental && (not (nonempty l.synced) && not (nonempty (trim l.plain)))

  abbrev pub word_sync_of : CacheEntry S → Lyrics S → CacheEntry S
  word_sync_of e l = if word_synced l then record e { lyrics = l } else e

module _ {S E : Type 0} (json : Lyrics S → Lyrics S) where
  -- upgradeCache, with the entry that it leaves behind.
  unfoldable pub upgrade_cache :
      Call S E → Bytes → CacheEntry S → Client S → Client S × CacheEntry S
  upgrade_cache call key e c = if not call.allowed then (c, e) else elim call.fetch [
    | uncached ↦ (c, e)
    | failed x ↦ (c, e)
    | not_found ↦ (store_cache json call.written call.now key e c, e)
    | got l ↦ (store_cache json call.written call.now key (word_sync_of e l) c, word_sync_of e l)
  ]

module _ {S E : Type 0} where
  abbrev pub answer_from : Client S × CacheEntry S → Client S × Reply S E
  answer_from (c, e) = (c, result (from_cache e))

module _ {S E : Type 0} (trim : Bytes → Bytes) (json : Lyrics S → Lyrics S) where
  abbrev pub missed : Call S E → Bytes → Client S → Client S × Reply S E
  missed call key c = (
    store_cache json call.written call.now key
        (record { version = 0; fetched = 0; source = []; miss = true; lyrics = no_lyrics }) c,
    result nothing,
  )

  abbrev pub received : Call S E → Bytes → Bytes → Client S → Lyrics S → Client S × Reply S E
  received call provider key c l = if is_empty trim l then missed call key c else (
    store_cache json call.written call.now key
        (record { version = 0; fetched = 0; source = provider; miss = false; lyrics = l }) c,
    result (record { found = true; source = provider; cached = false; lyrics = l }),
  )

  -- lookupProvider without a cached entry.
  abbrev pub ask : Call S E → Bool → Bytes → Bytes → Client S → Client S × Reply S E
  ask call cache_only provider key c =
      if cache_only
      then (c, result nothing)
      else if call.cancelled
      then (c, ended)
      else if not call.allowed
      then (c, rate_limited)
      else elim call.fetch [
        | uncached ↦ (c, result nothing)
        | failed e ↦ (c, error e)
        | not_found ↦ missed call key c
        | got l ↦ received call provider key c l
      ]

  abbrev pub with_entry :
      Call S E → Bool → Bytes → Bytes → Client S → Option (CacheEntry S) → Client S × Reply S E
  with_entry call cache_only provider key c none = ask call cache_only provider key c
  with_entry call cache_only provider key c (some e) =
      if c.upgrade && (not cache_only && awaits_word_sync call.now e)
      then answer_from (upgrade_cache json call key e c)
      else answer_from (c, e)

  unfoldable pub lookup_provider : Call S E → Bool → Bytes → Bytes → Client S → Client S × Reply S E
  unfolding load_cache
  lookup_provider call cache_only provider key c =
      with_entry call cache_only provider key c (load_cache call.now key c)
