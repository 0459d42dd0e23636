-- ===== src/Files/Filter/Shown.antt =====
-- files/filter.go: what the filters that a client gives as text show of a listing.
use dankgo.Prelude.{
  ◌≡◌, refl, sym, ap, fun_ext, ◌∙◌, Bool, true, false, not, ◌&&◌, ◌||◌, Option, none, some, List,
  [], ◌∷◌, ◌++◌, arith, if◌then◌else◌, keep, any, Bool-cases, inl, inr, append-nil, append_assoc,
}
use dankgo.Prelude.Text.{Bytes, eqb, codes}
use dankgo.Files.Entry.{Entry}
use dankgo.Files.Filter.{
  Patterns, Parsed, filter, invalid, matched, pattern_of, parse_loop, parse_filters, passes,
  visible, filter_view, filter_view-visible,
}

module _ (g : Patterns) where
  -- A pattern that is not blank, and one that stands for every name.
  abbrev pub is_given : Bytes → Bool
  is_given raw = not (eqb (pattern_of g raw) [])

  abbrev pub is_star : Bytes → Bool
  is_star raw = eqb (pattern_of g raw) (codes "*") || eqb (pattern_of g raw) (codes "*.*")

  -- Whether a file's name goes through the patterns: there is none, one stands for every name, or one matches.
  abbrev pub accepts : List Bytes → Bytes → Bool
  accepts patterns name =
      (any is_star patterns || not (any is_given patterns))
      || any (λ raw. is_given raw && matched (g.match (pattern_of g raw) (g.to_lower name)))
          patterns

  abbrev pub is_shown : List Bytes → Bool → Entry → Bool
  is_shown patterns include_hidden e =
      (include_hidden || not e.hidden) && (e.is_dir || accepts patterns e.name)

  given : List Bytes → List Bytes
  given [] = []
  given (raw ∷ raws) =
      let rest = given raws in if is_given raw then pattern_of g raw ∷ rest else rest

  blank_no_star : (p : Bytes) → eqb p [] ≡ true → (eqb p (codes "*") || eqb p (codes "*.*")) ≡ false
  unfolding eqb
  blank_no_star [] h = refl
  blank_no_star (c ∷ p) h = cc

  filters_of : List Bytes → Parsed → List Bytes
  filters_of fs (filter gs) = gs
  filters_of fs (invalid raw) = fs

  filter-injective : (fs gs : List Bytes) → filter fs ≡ filter gs → fs ≡ gs
  unfolding filters_of
  filter-injective fs gs e = ap (filters_of []) e

  invalid≢filter : (raw : Bytes) (fs : List Bytes) → invalid raw ≡ filter fs → ⊥
  unfolding filters_of
  invalid≢filter raw fs e = cc

  parse_loop-given :
      (raws found fs : List Bytes) (all : Bool)
      → parse_loop g raws found all ≡ filter fs
      → fs ≡ (if all || any is_star raws then [] else found ++ given raws)
  unfolding parse_loop given
  parse_loop-given [] found fs true e = sym (filter-injective _ _ e)
  parse_loop-given [] found fs false e = sym (filter-injective _ _ e) ∙ sym (append-nil found)
  parse_loop-given (raw ∷ raws) found fs all e =
      step (g.match (pattern_of g raw) []) (eqb (pattern_of g raw) []) (is_star raw)
        (blank_no_star (pattern_of g raw)) (λ f a. parse_loop-given raws f fs a) e
    where
      p : Bytes
      p = pattern_of g raw

      blank : Parsed
      blank = parse_loop g raws found all

      plain : Parsed
      plain = parse_loop g raws (found ++ p ∷ []) all

      starred : Parsed
      starred = parse_loop g raws (found ++ p ∷ []) true

      step :
          (m : Option Bool) (b s : Bool)
          → (b ≡ true → s ≡ false)
          → ((f : List Bytes) (a : Bool)
              → parse_loop g raws f a ≡ filter fs
              → fs ≡ (if a || any is_star raws then [] else f ++ given raws))
          → (elim m [
            | none ↦ invalid raw
            | some _ ↦ if b then blank else if s then starred else plain
          ])
            ≡ filter fs
          → fs ≡ (
              if all || (s || any is_star raws)
              then []
              else found ++ (if not b then p ∷ given raws else given raws))
      step none b s w ih h = absurd (invalid≢filter raw fs h)
      step (some m) true true w ih h = let impossible = w refl in absurd (cc)
      step (some m) true false w ih h = ih found all h
      step (some m) false true w ih h = ih (found ++ p ∷ []) true h ∙ (ground arith)
      step (some m) false false w ih h =
          ih (found ++ p ∷ []) all h
          ∙ ap (λ z. if all || any is_star raws then [] else z)
              (append_assoc found (p ∷ []) (given raws))

  any-given :
      (patterns : List Bytes) (q : Bytes → Bool)
      → any q (given patterns) ≡ any (λ raw. is_given raw && q (pattern_of g raw)) patterns
  unfolding given
  any-given [] q = refl
  any-given (raw ∷ raws) q = ground (arith, any-given raws q)

  is_none : List Bytes → Bool
  is_none [] = true
  is_none (f ∷ fs) = false

  given_none : (patterns : List Bytes) → is_none (given patterns) ≡ not (any is_given patterns)
  unfolding given is_none
  given_none [] = refl
  given_none (raw ∷ raws) = ground (arith, given_none raws)

  passes-any :
      (fs : List Bytes) (e : Entry)
      → passes g fs e
        ≡ (e.is_dir || (is_none fs || any (λ p. matched (g.match p (g.to_lower e.name))) fs))
  unfolding passes is_none
  passes-any [] e = ground arith
  passes-any (f ∷ fs) e = ground arith

  passes-accepts :
      (patterns fs : List Bytes) (e : Entry)
      → fs ≡ (if any is_star patterns then [] else given patterns)
      → passes g fs e ≡ (e.is_dir || accepts patterns e.name)
  passes-accepts patterns fs e h = elim (Bool-cases (any is_star patterns)) [
    | inl s ↦
        let none_left : fs ≡ [] = h ∙ (rw s refl) in
        passes-any fs e ∙ (rw (none_left, s) (unfold is_none in refl))
    | inr s ↦
        let left : fs ≡ given patterns = h ∙ (rw s refl) in
        passes-any fs e
        ∙ (rw
            (
              left,
              s,
              given_none patterns,
              any-given patterns (λ p. matched (g.match p (g.to_lower e.name))),
            )
            refl)
  ]

  keep_same :
      (p q : Entry → Bool) (es : List Entry) → ((e : Entry) → p e ≡ q e) → keep p es ≡ keep q es
  keep_same p q es h = ap (λ (r : Entry → Bool). keep r es) (fun_ext h)

  -- Where the filters are what ParseFilters gives for the client's patterns, the view has exactly these
  -- entries, in the order of the listing: each that is not hidden, or all where hidden ones are included,
  -- and of these each that is a directory or whose name goes through the patterns. A name goes through
  -- where no pattern is given, where a pattern is * or *.*, or where a pattern matches it; blank patterns
  -- count for nothing, patterns are trimmed and lowered, and names are lowered.
  pub filter_view-parse_filters :
      (patterns fs : List Bytes) (entries : List Entry) (include_hidden : Bool)
      → parse_filters g patterns ≡ filter fs
      → filter_view g entries include_hidden fs ≡ keep (is_shown patterns include_hidden) entries
  unfolding parse_filters
  filter_view-parse_filters patterns fs entries include_hidden h =
      filter_view-visible g entries include_hidden fs
      ∙ keep_same (visible g include_hidden fs) (is_shown patterns include_hidden) entries (λ e.
        unfold visible in
        (rw (passes-accepts patterns fs e (parse_loop-given patterns [] fs false h))
          (ground arith)))
