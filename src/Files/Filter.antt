-- ===== src/Files/Filter.antt =====
-- files/filter.go: name filters and the visible part of a listing. Case folding, trimming and
-- filepath.Match rest on Unicode tables and pattern syntax of Go's library, and are parameters.
pub mod Shown
use dankgo.Prelude.{
  ◌≡◌, refl, Bool, true, false, not, ◌&&◌, ◌||◌, Option, none, some, List, [], ◌∷◌, ◌++◌, arith,
  if◌then◌else◌, keep, any,
}
use dankgo.Prelude.Text.{Bytes, eqb, codes}
use dankgo.Files.Entry.{Entry}

-- strings.ToLower, strings.TrimSpace and filepath.Match, whose error is `none`.
pub record Patterns : Type 0 where
  pub to_lower : Bytes → Bytes
  pub trim_space : Bytes → Bytes
  pub match : Bytes → Bytes → Option Bool

-- The filter, or the raw pattern that filepath.Match refuses.
pub data Parsed : Type 0 where
  filter : List Bytes → Parsed
  invalid : Bytes → Parsed

abbrev pub matched : Option Bool → Bool
matched none = false
matched (some b) = b

module _ (g : Patterns) where
  abbrev pub pattern_of : Bytes → Bytes
  pattern_of raw = g.to_lower (g.trim_space raw)

  unfoldable pub parse_loop : List Bytes → List Bytes → Bool → Parsed
  parse_loop [] found match_all = if match_all then filter [] else filter found
  parse_loop (raw ∷ raws) found match_all =
      let blank = parse_loop raws found match_all in
      let star = parse_loop raws (found ++ pattern_of raw ∷ []) true in
      let plain = parse_loop raws (found ++ pattern_of raw ∷ []) match_all in
      elim (g.match (pattern_of raw) []) [
        | none ↦ invalid raw
        | some _ ↦
            if eqb (pattern_of raw) []
            then blank
            else if eqb (pattern_of raw) (codes "*") || eqb (pattern_of raw) (codes "*.*")
            then star
            else plain
      ]

  unfoldable pub parse_filters : List Bytes → Parsed
  unfolding parse_loop
  parse_filters patterns = parse_loop patterns [] false

  unfoldable pub passes : List Bytes → Entry → Bool
  passes [] e = true
  passes (f ∷ fs) e =
      if e.is_dir
      then true
      else any (λ pattern'. matched (g.match pattern' (g.to_lower e.name))) (f ∷ fs)

  -- The entries that a view shows.
  unfoldable pub visible : Bool → List Bytes → Entry → Bool
  visible include_hidden filters e = not (e.hidden && not include_hidden) && passes filters e

  unfoldable pub filter_view : List Entry → Bool → List Bytes → List Entry
  unfolding visible
  filter_view entries true [] = entries
  filter_view entries include_hidden filters = keep (visible include_hidden filters) entries

  -- The view is the visible entries in their order, also where it is taken without a copy.
  pub filter_view-visible :
      (entries : List Entry) (include_hidden : Bool) (filters : List Bytes)
      → filter_view entries include_hidden filters ≡ keep (visible include_hidden filters) entries
  unfolding filter_view passes
  filter_view-visible [] true [] = refl
  filter_view-visible (e ∷ es) true [] = ground (arith, filter_view-visible es true [])
  filter_view-visible entries true (f ∷ fs) = refl
  filter_view-visible entries false filters = refl
