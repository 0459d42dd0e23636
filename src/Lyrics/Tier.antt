-- ===== src/Lyrics/Tier.antt =====
-- lyrics/types.go: lyrics, the result of a lookup, and the sync tier by which results are ranked.
-- A time in seconds is a floating point number, the parameter S.
use dankgo.Prelude.{ℕ, ◌≤◌, Bool, true, false, ◌||◌, List, [], ◌∷◌, if◌then◌else◌, any, arith}
use dankgo.Prelude.Text.{Bytes}
use dankgo.Prelude.Int.{ℤ, pos}

pub record Word (S : Type 0) : Type 0 where
  pub start : S
  pub end : S
  pub text : Bytes

pub record Line (S : Type 0) : Type 0 where
  pub start : S
  pub end : S
  pub text : Bytes
  pub words : List (Word S)
  pub voice : Bytes
  pub background : Bool
  pub group : ℕ

pub record Voice : Type 0 where
  pub name : Bytes
  pub kind : Bytes

pub data SourceFormat : Type 0 where
  unknown : SourceFormat
  lrc : SourceFormat
  ttml : SourceFormat
  lyricsfile : SourceFormat

-- A map of voices is its pairs.
pub record Lyrics (S : Type 0) : Type 0 where
  pub synced : List (Line S)
  pub plain : Bytes
  pub instrumental : Bool
  pub voices : List (Bytes × Voice)
  pub title : Bytes
  pub artist : Bytes
  pub album : Bytes
  pub duration_ms : ℤ
  pub source : SourceFormat
  pub raw : Bytes

abbrev pub lyrics_of : {S : Type 0} → List (Line S) → Lyrics S
lyrics_of synced = record {
  synced = synced;
  plain = [];
  instrumental = false;
  voices = [];
  title = [];
  artist = [];
  album = [];
  duration_ms = pos 0;
  source = unknown;
  raw = [];
}

-- The attribution of a result is left out: the lookup only passes it on.
pub record Result (S : Type 0) : Type 0 where
  pub found : Bool
  pub source : Bytes
  pub cached : Bool
  pub lyrics : Lyrics S

abbrev pub nonempty {ℓ} : {A : Type ℓ} → List A → Bool
nonempty [] = false
nonempty (x ∷ xs) = true

unfoldable pub word_synced : {S : Type 0} → Lyrics S → Bool
word_synced l = any (λ line. nonempty line.words) l.synced

unfoldable pub tier : {S : Type 0} → Lyrics S → ℕ
tier l = if word_synced l then 2 else if nonempty l.synced || l.instrumental then 1 else 0

-- Word sync is the highest tier.
pub tier-bound : {S : Type 0} (l : Lyrics S) → tier l ≤ 2
unfolding tier
tier-bound l = ground arith
