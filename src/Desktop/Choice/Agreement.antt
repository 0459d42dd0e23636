-- ===== src/Desktop/Choice/Agreement.antt =====
-- desktop/mime.go: AppsForMime, and GetDefault beside it.
use dankgo.Prelude.{
  ◌≡◌, refl, sym, ap, ◌∙◌, ◌⊎◌, Bool, true, false, ◌&&◌, ◌||◌, Option, none, some, List, [], ◌∷◌,
  ◌++◌, arith, if◌then◌else◌, Bool-cases, inl, inr, any,
}
use mathlib.Core.Option.{none-ne-some, some-injective}
use dankgo.Prelude.Text.{Bytes, eqb_iff, eqb_refl}
use dankgo.Prelude.Members.{contains, contains-append, list_at, AreDistinct}
use dankgo.Desktop.Groups.{is_empty}
use dankgo.Desktop.Chain.{canonical_mime, mime_chain}
use dankgo.Desktop.Choice.{
  Entry, Desktop, or_first, removed_at, first_kept, default_in, listed_in, supporting, entry_in,
  removed_in, default_first, associated, cached, shown, entry_supports_mime, kept_default,
  get_default, apps_for_mime,
}
use dankgo.Desktop.Choice.Candidates.{
  kept_by, add_all-contains, add_all-AreDistinct, first_kept-contains,
}

or_first-cases :
    (a b : Option Bytes) (x : Bytes) → or_first a b ≡ some x → (a ≡ some x) ⊎ (b ≡ some x)
or_first-cases none b x h = inr h
or_first-cases (some id) b x h = inl h

in_first : (a b : List Bytes) (x : Bytes) → contains a x ≡ true → contains (a ++ b) x ≡ true
in_first a b x h = contains-append a b x ∙ (rw h refl)

in_second : (a b : List Bytes) (x : Bytes) → contains b x ≡ true → contains (a ++ b) x ≡ true
in_second a b x h = contains-append a b x ∙ (rw h (or_true (contains a x)))
  where
    or_true : (b : Bool) → (b || true) ≡ true
    or_true b = ground arith

kept_default-contains :
    (removed : List Bytes) (o : Option Bytes) (ids : List Bytes) (x : Bytes)
    → kept_default removed o ≡ some x
    → contains (default_first o ids) x ≡ true
kept_default-contains removed none ids x h = absurd (none-ne-some _ h)
kept_default-contains removed (some id) ids x h = elim (Bool-cases (contains removed id)) [
  | inl e ↦ absurd (none-ne-some _ (rw e at h))
  | inr e ↦
      let found : some id ≡ some x = rw e at h in
      unfold contains in (rw (some-injective _ _ found, eqb_refl x) refl)
]

behind_default :
    (o : Option Bytes) (ids : List Bytes) (x : Bytes)
    → contains ids x ≡ true
    → contains (default_first o ids) x ≡ true
behind_default none ids x h = h
behind_default (some id) ids x h = unfold contains in (rw h (ground arith))

module _ (d : Desktop) where
  default_in-contains :
      (ms : List Bytes) (x : Bytes) → default_in d ms ≡ some x → contains (associated d ms) x ≡ true
  unfolding default_in
  default_in-contains [] x h = absurd (none-ne-some _ h)
  default_in-contains (m ∷ ms) x h =
      let here = default_first (d.merged.defaults m) (list_at (d.merged.added m)) in
      elim (or_first-cases (kept_default (removed_at d m) (d.merged.defaults m)) (default_in d ms) x
        h) [
          | inl e ↦
              in_first here (associated d ms) x
                (kept_default-contains (removed_at d m) (d.merged.defaults m) _ x e)
          | inr e ↦ in_second here (associated d ms) x (default_in-contains ms x e)
        ]

  added_in-contains :
      (ms : List Bytes) (x : Bytes)
      → listed_in d d.merged.added ms ≡ some x
      → contains (associated d ms) x ≡ true
  unfolding listed_in
  added_in-contains [] x h = absurd (none-ne-some _ h)
  added_in-contains (m ∷ ms) x h =
      let ids = list_at (d.merged.added m) in
      let here = default_first (d.merged.defaults m) ids in
      elim (or_first-cases (first_kept (removed_at d m) ids) (listed_in d d.merged.added ms) x h) [
        | inl e ↦ in_first here (associated d ms) x (
            behind_default (d.merged.defaults m) ids x
              (first_kept-contains (removed_at d m) ids x e))
        | inr e ↦ in_second here (associated d ms) x (added_in-contains ms x e)
      ]

  cached_in-contains :
      (ms : List Bytes) (x : Bytes)
      → listed_in d d.cache ms ≡ some x
      → contains (cached d ms) x ≡ true
  unfolding listed_in
  cached_in-contains [] x h = absurd (none-ne-some _ h)
  cached_in-contains (m ∷ ms) x h =
      let ids = list_at (d.cache m) in
      elim (or_first-cases (first_kept (removed_at d m) ids) (listed_in d d.cache ms) x h) [
        | inl e ↦ in_first ids (cached d ms) x (first_kept-contains (removed_at d m) ids x e)
        | inr e ↦ in_second ids (cached d ms) x (cached_in-contains ms x e)
      ]

  supports_more :
      (chain types : List Bytes) (m : Bytes)
      → contains chain m ≡ true
      → any (λ k. contains (m ∷ []) (canonical_mime d.tables k) || contains (m ∷ []) k) types ≡ true
      → any (λ k. contains chain (canonical_mime d.tables k) || contains chain k) types ≡ true
  supports_more chain [] m c h = h
  supports_more chain (k ∷ types) m c h =
      ground (arith, supports_more chain types m c, at_one (canonical_mime d.tables k), at_one k)
    where
      at_one : (x : Bytes) → contains (m ∷ []) x ≡ true → contains chain x ≡ true
      at_one x h = ap (contains chain) (sym ((eqb_iff m x).0 (unfold contains in ground arith))) ∙ c

  supports_wider :
      (chain : List Bytes) (m : Bytes) (e : Entry)
      → contains chain m ≡ true
      → entry_supports_mime d.tables e (m ∷ []) ≡ true
      → entry_supports_mime d.tables e chain ≡ true
  unfolding entry_supports_mime
  supports_wider chain m e c h = supports_more chain e.mime_types m c h

  supporting-contains :
      (chain : List Bytes) (m : Bytes) (es : List Entry) (x : Bytes)
      → contains chain m ≡ true
      → supporting d m es ≡ some x
      → contains (shown d chain es) x ≡ true
  unfolding supporting shown
  supporting-contains chain m [] x c h = absurd (none-ne-some _ h)
  supporting-contains chain m (e ∷ es) x c h =
      let ih = supporting-contains chain m es x c in
      let more = supports_wider chain m e c in
      one (e.hidden) (e.no_display) (contains (removed_at d m) e.id)
        (entry_supports_mime d.tables e (m ∷ [])) (entry_supports_mime d.tables e chain) more ih h
    where
      one :
          (hidden no_display removed supports wider : Bool)
          → (supports ≡ true → wider ≡ true)
          → (supporting d m es ≡ some x → contains (shown d chain es) x ≡ true)
          → (if hidden || no_display
              then supporting d m es
              else if removed
              then supporting d m es
              else if supports
              then some e.id
              else supporting d m es)
            ≡ some x
          → contains
              (if hidden
                then shown d chain es
                else if wider
                then e.id ∷ shown d chain es
                else shown d chain es)
              x
            ≡ true
      one true _ _ _ _ w ih h = ih h
      one false true _ _ true w ih h = unfold contains in (rw (ih h) (ground arith))
      one false true _ _ false w ih h = ih h
      one false false true _ true w ih h = unfold contains in (rw (ih h) (ground arith))
      one false false true _ false w ih h = ih h
      one false false false true true w ih h =
          unfold contains in (rw (some-injective _ _ h, eqb_refl x) refl)
      one false false false true false w ih h = let impossible = w refl in absurd (cc)
      one false false false false true w ih h = unfold contains in (rw (ih h) (ground arith))
      one false false false false false w ih h = ih h

  entry_in-contains :
      (chain ms : List Bytes) (x : Bytes)
      → ((m : Bytes) → contains ms m ≡ true → contains chain m ≡ true)
      → entry_in d ms ≡ some x
      → contains (shown d chain d.entries) x ≡ true
  unfolding entry_in
  entry_in-contains chain [] x c h = absurd (none-ne-some _ h)
  entry_in-contains chain (m ∷ ms) x c h =
      elim (or_first-cases (supporting d m d.entries) (entry_in d ms) x h) [
        | inl e ↦
            supporting-contains chain m d.entries x
              (c m (unfold contains in (rw (eqb_refl m) refl))) e
        | inr e ↦
            entry_in-contains chain ms x (λ k h. c k (unfold contains in (rw h (ground arith)))) e
      ]

  -- Everything that the loops of AppsForMime call add with.
  abbrev pub candidates : List Bytes → List Bytes
  candidates chain = associated d chain ++ (cached d chain ++ shown d chain d.entries)

  get_default-candidates :
      (mime x : Bytes)
      → get_default d mime ≡ some x
      → contains (candidates (mime_chain d.tables mime)) x ≡ true
  unfolding get_default
  get_default-candidates mime x h =
      let chain = mime_chain d.tables mime in
      let listed = listed_in d d.merged.added chain in
      let from_cache = listed_in d d.cache chain in
      let a = associated d chain in
      let c = cached d chain in
      let s = shown d chain d.entries in
      elim (or_first-cases (default_in d chain)
        (or_first listed (or_first from_cache (entry_in d chain))) x h) [
          | inl e ↦ in_first a (c ++ s) x (default_in-contains chain x e)
          | inr e ↦ elim (or_first-cases listed (or_first from_cache (entry_in d chain)) x e) [
            | inl f ↦ in_first a (c ++ s) x (added_in-contains chain x f)
            | inr f ↦ elim (or_first-cases from_cache (entry_in d chain) x f) [
              | inl g ↦ in_second a (c ++ s) x (in_first c s x (cached_in-contains chain x g))
              | inr g ↦
                  in_second a (c ++ s) x
                    (in_second c s x (entry_in-contains chain chain x (λ m k. k) g))
            ]
          ]
        ]

-- No application twice, and the candidates but the empty text and what is removed.
pub apps_for_mime-candidates :
    (d : Desktop) (mime : Bytes)
    → AreDistinct (apps_for_mime d mime)
      × ((x : Bytes)
          → contains (apps_for_mime d mime) x ≡ (
              contains (candidates d (mime_chain d.tables mime)) x
              && kept_by (removed_in d (mime_chain d.tables mime)) x))
unfolding apps_for_mime
apps_for_mime-candidates d mime =
    let chain = mime_chain d.tables mime in
    (
      add_all-AreDistinct (removed_in d chain) (candidates d chain) [] tt,
      λ x.
          add_all-contains (removed_in d chain) (candidates d chain) [] x
          ∙ (unfold contains in refl),
    )

-- Where GetDefault returns an application that is not the empty text, and that the merged associations remove
-- for no type of the chain, AppsForMime names it.
pub get_default-apps_for_mime :
    (d : Desktop) (mime x : Bytes)
    → get_default d mime ≡ some x
    → is_empty x ≡ false
    → removed_in d (mime_chain d.tables mime) x ≡ false
    → contains (apps_for_mime d mime) x ≡ true
get_default-apps_for_mime d mime x h e r =
    (apps_for_mime-candidates d mime).1 x ∙ (rw (get_default-candidates d mime x h, e, r) refl)
