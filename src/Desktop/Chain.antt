-- ===== src/Desktop/Chain.antt =====
-- desktop/mime.go: the alias tables, and the chain of a MIME type and its ancestors. The tables are lists of
-- pairs in the order in which the files have them.
pub mod Walk
pub mod Reach
mod Samples
use dankgo.Prelude.{
  ℕ, zero, suc, ◌+◌, Bool, true, false, not, ◌&&◌, ◌||◌, Option, none, some, List, [], ◌∷◌, ◌++◌,
  if◌then◌else◌, ◌==◌, take, drop, length,
}
use dankgo.Prelude.Text.{Bytes, eqb}
use dankgo.Prelude.Members.{contains}
use dankgo.Desktop.Groups.{trim_space, index_byte, scan_lines, is_empty, first_is}

abbrev pub Pairs : Type 0
Pairs = List (Bytes × Bytes)

abbrev at_space : Bytes → Option ℕ → Pairs → Pairs
at_space line none rest = rest
at_space line (some sp) rest =
    if sp == 0 then rest else (trim_space (take sp line), trim_space (drop (suc sp) line)) ∷ rest

abbrev kv_of_line : Bytes → Pairs → Pairs
kv_of_line line rest =
    if is_empty line || first_is 35 line then rest else at_space line (index_byte 32 line) rest

abbrev kv_of_lines : List Bytes → Pairs
kv_of_lines [] = []
kv_of_lines (line ∷ lines) = kv_of_line (trim_space line) (kv_of_lines lines)

-- The pairs that readKV passes on, at the text of a file.
unfoldable pub read_kv : Bytes → Pairs
unfolding scan_lines trim_space index_byte
read_kv text = kv_of_lines (scan_lines text)

pub record Tables : Type 0 where
  pub aliases : Pairs
  pub subclasses : Pairs

abbrev all_pairs : List Bytes → Pairs
all_pairs [] = []
all_pairs (text ∷ texts) = read_kv text ++ all_pairs texts

-- loadAliasTables, at the texts of the files of all directories.
unfoldable pub load_alias_tables : List Bytes → List Bytes → Tables
unfolding read_kv
load_alias_tables aliases subclasses = record {
  aliases = all_pairs aliases;
  subclasses = all_pairs subclasses;
}

-- aliasMap: the first pair counts.
unfoldable pub alias_of : Pairs → Bytes → Option Bytes
unfolding eqb
alias_of [] k = none
alias_of ((j, v) ∷ kvs) k = if eqb j k then some v else alias_of kvs k

-- subclassMap: all pairs count.
unfoldable pub parents_of : Pairs → Bytes → List Bytes
unfolding eqb
parents_of [] k = []
parents_of ((j, v) ∷ kvs) k = let rest = parents_of kvs k in if eqb j k then v ∷ rest else rest

abbrev before_semi : Bytes → Option ℕ → Bytes
before_semi mime none = mime
before_semi mime (some semi) = take semi mime

unfoldable pub strip_mime_params : Bytes → Bytes
unfolding trim_space index_byte
strip_mime_params mime = trim_space (before_semi mime (index_byte 59 mime))

abbrev alias_or : Bytes → Option Bytes → Bytes
alias_or mime none = mime
alias_or mime (some target) = target

unfoldable pub canonical_mime : Tables → Bytes → Bytes
unfolding strip_mime_params alias_of
canonical_mime t mime =
    alias_or (strip_mime_params mime) (alias_of t.aliases (strip_mime_params mime))

-- The chain, which has the visited types, and the queue.
abbrev pub Frontier : Type 0
Frontier = List Bytes × List Bytes

abbrev pub visit : Bytes → Frontier → Frontier
visit p (chain, queue) =
    if contains chain p then (chain, queue) else (chain ++ p ∷ [], queue ++ p ∷ [])

-- The loop over the parents of the type that left the queue.
unfoldable pub add_parents : List Bytes → Frontier → Frontier
unfolding contains
add_parents [] s = s
add_parents (p ∷ ps) s = add_parents ps (visit p s)

abbrev pub step : Pairs → Frontier → Frontier
step kvs (chain, []) = (chain, [])
step kvs (chain, cur ∷ queue) = add_parents (parents_of kvs cur) (chain, queue)

-- The loop of mimeChain, for so many rounds.
unfoldable pub walk : Pairs → ℕ → Frontier → Frontier
unfolding add_parents parents_of
walk kvs zero s = s
walk kvs (suc left) s = walk kvs left (step kvs s)

-- Each pair adds a type to the queue at most once.
unfoldable pub chain_from : Pairs → Bytes → Frontier
unfolding walk
chain_from kvs root = walk kvs (suc (length kvs)) (root ∷ [], root ∷ [])

unfoldable pub mime_chain : Tables → Bytes → List Bytes
unfolding canonical_mime chain_from
mime_chain t mime = (chain_from t.subclasses (canonical_mime t mime)).0
