-- ===== src/Desktop/Choice/Offered.antt =====
-- desktop/mime.go: what AppsForMime names, in terms of the associations, the cache and the entries.
use dankgo.Prelude.{
  ◌≡◌, refl, ◌∙◌, Bool, false, not, ◌&&◌, ◌||◌, Option, none, some, List, [], ◌∷◌, ◌++◌, arith, any,
}
use dankgo.Prelude.Text.{Bytes, eqb}
use dankgo.Prelude.Members.{contains, contains-append, list_at, AreDistinct}
use dankgo.Desktop.Groups.{is_empty}
use dankgo.Desktop.Chain.{canonical_mime, mime_chain}
use dankgo.Desktop.Choice.{
  Entry, Desktop, removed_in, default_first, associated, cached, shown, entry_supports_mime,
  apps_for_mime,
}
use dankgo.Desktop.Choice.Agreement.{apps_for_mime-candidates}

abbrev pub is_default : Option Bytes → Bytes → Bool
is_default none x = false
is_default (some id) x = eqb id x

module _ (d : Desktop) where
  -- A default or an added association of one of the types.
  abbrev pub is_associated : List Bytes → Bytes → Bool
  is_associated chain x =
      any (λ m. is_default (d.merged.defaults m) x || contains (list_at (d.merged.added m)) x) chain

  -- An application that the cache has for one of the types.
  abbrev pub is_cached : List Bytes → Bytes → Bool
  is_cached chain x = any (λ m. contains (list_at (d.cache m)) x) chain

  -- An entry that is not hidden, and that names one of the types or an alias of one.
  abbrev pub is_entry : List Bytes → Bytes → Bool
  is_entry chain x =
      any
        (λ (e : Entry).
          not e.hidden
          && (eqb e.id x
              && any (λ k. contains chain (canonical_mime d.tables k) || contains chain k)
                  e.mime_types))
        d.entries

  abbrev pub is_removed : List Bytes → Bytes → Bool
  is_removed chain x = any (λ m. contains (list_at (d.merged.removed m)) x) chain

  default_first-contains :
      (o : Option Bytes) (ids : List Bytes) (x : Bytes)
      → contains (default_first o ids) x ≡ (is_default o x || contains ids x)
  unfolding contains
  default_first-contains none ids x = refl
  default_first-contains (some id) ids x = refl

  associated-contains :
      (ms : List Bytes) (x : Bytes) → contains (associated d ms) x ≡ is_associated ms x
  associated-contains [] x = unfold contains in refl
  associated-contains (m ∷ ms) x =
      contains-append (default_first (d.merged.defaults m) (list_at (d.merged.added m)))
        (associated d ms) x
      ∙ (rw
          (
            default_first-contains (d.merged.defaults m) (list_at (d.merged.added m)) x,
            associated-contains ms x,
          )
          refl)

  cached-contains : (ms : List Bytes) (x : Bytes) → contains (cached d ms) x ≡ is_cached ms x
  cached-contains [] x = unfold contains in refl
  cached-contains (m ∷ ms) x =
      contains-append (list_at (d.cache m)) (cached d ms) x ∙ (rw (cached-contains ms x) refl)

  removed_in-is_removed : (ms : List Bytes) (x : Bytes) → removed_in d ms x ≡ is_removed ms x
  unfolding removed_in
  removed_in-is_removed [] x = refl
  removed_in-is_removed (m ∷ ms) x = rw (removed_in-is_removed ms x) refl

  shown-contains :
      (chain : List Bytes) (es : List Entry) (x : Bytes)
      → contains (shown d chain es) x
        ≡ any
            (λ (e : Entry).
              not e.hidden
              && (eqb e.id x
                  && any
                      (λ k. contains chain (canonical_mime d.tables k) || contains chain k)
                      e.mime_types))
            es
  unfolding shown contains entry_supports_mime
  shown-contains chain [] x = refl
  shown-contains chain (e ∷ es) x = ground (arith, shown-contains chain es x)

-- AppsForMime names no application twice. It names exactly the applications that are a default or an
-- added association for a type of the chain, that the cache has for one, or that an entry is whose file
-- is not hidden and lists a type of the chain or an alias of one; but it never names the empty text or
-- an application that the merged associations remove for any type of the chain.
pub apps_for_mime-contains :
    (d : Desktop) (mime : Bytes)
    → AreDistinct (apps_for_mime d mime)
      × ((x : Bytes)
          → contains (apps_for_mime d mime) x ≡ (
              (is_associated d (mime_chain d.tables mime) x
                || (is_cached d (mime_chain d.tables mime) x
                    || is_entry d (mime_chain d.tables mime) x))
              && (not (is_empty x) && not (is_removed d (mime_chain d.tables mime) x))))
apps_for_mime-contains d mime =
    let chain = mime_chain d.tables mime in
    let known = apps_for_mime-candidates d mime in
    (
      known.0,
      λ x.
          known.1 x
          ∙ (rw
              (
                contains-append (associated d chain) (cached d chain ++ shown d chain d.entries) x,
                contains-append (cached d chain) (shown d chain d.entries) x,
                associated-contains d chain x,
                cached-contains d chain x,
                shown-contains d chain d.entries x,
                removed_in-is_removed d chain x,
              )
              refl),
    )
