-- ===== src/Desktop/Cache.antt =====
-- desktop/mime.go: loadMimeCache, at the texts of the mimeinfo.cache files that can be read, in order.
use dankgo.Prelude.{
  ◌≡◌, refl, sym, ap, ◌∙◌, Bool, true, false, ◌||◌, Option, none, some, List, [], ◌∷◌, ◌++◌,
  if◌then◌else◌, Bool-cases, inl, inr, arith,
}
use dankgo.Prelude.Text.{Bytes, codes, eqb, eqb_iff}
use dankgo.Prelude.Members.{
  GoMap, contains, contains-append, list_at, AreDistinct, AreDistinct-append,
}
use dankgo.Desktop.Groups.{Group, parse_groups, split_list}

abbrev value_at : Option Group → Bytes → Bytes
value_at none mime = []
value_at (some g) mime = value_or_empty (g mime)
  where
    value_or_empty : Option Bytes → Bytes
    value_or_empty none = []
    value_or_empty (some v) = v

-- The identifiers that one file has for the type.
unfoldable pub cached_ids : Bytes → Bytes → List Bytes
unfolding parse_groups split_list
cached_ids text mime = split_list (value_at (parse_groups text (codes "MIME Cache")) mime)

abbrev add_new : List Bytes → List Bytes → List Bytes
add_new merged [] = merged
add_new merged (id ∷ ids) = add_new (if contains merged id then merged else merged ++ id ∷ []) ids

abbrev cached_over : List Bytes → List Bytes → Bytes → List Bytes
cached_over merged [] mime = merged
cached_over merged (text ∷ texts) mime =
    cached_over (add_new merged (cached_ids text mime)) texts mime

abbrev unless_empty : List Bytes → Option (List Bytes)
unless_empty [] = none
unless_empty (x ∷ xs) = some (x ∷ xs)

unfoldable pub load_mime_cache : List Bytes → GoMap (List Bytes)
unfolding cached_ids contains
load_mime_cache texts mime = unless_empty (cached_over [] texts mime)

-- Whether some file has the identifier for the type.
abbrev any_has : List Bytes → Bytes → Bytes → Bool
any_has [] mime id = false
any_has (text ∷ texts) mime id = contains (cached_ids text mime) id || any_has texts mime id

add_new-contains :
    (merged ids : List Bytes) (x : Bytes)
    → contains (add_new merged ids) x ≡ (contains merged x || contains ids x)
add_new-contains merged [] x = unfold contains in ground arith
add_new-contains merged (id ∷ ids) x = elim (Bool-cases (contains merged id)) [
  | inl h ↦ rw h (add_new-contains merged ids x ∙ (unfold contains in (known h)))
  | inr h ↦ rw h (
      add_new-contains (merged ++ id ∷ []) ids x
      ∙ (rw (contains-append merged (id ∷ []) x) (unfold contains in ground arith)))
]
  where
    known :
        contains merged id ≡ true
        → (contains merged x || contains ids x)
          ≡ (contains merged x || (eqb id x || contains ids x))
    known h = elim (Bool-cases (eqb id x)) [
      | inl e ↦ rw (e, sym (ap (contains merged) ((eqb_iff id x).0 e)), h) refl
      | inr e ↦ rw e refl
    ]

add_new-AreDistinct :
    (merged ids : List Bytes) → AreDistinct merged → AreDistinct (add_new merged ids)
add_new-AreDistinct merged [] d = d
add_new-AreDistinct merged (id ∷ ids) d = elim (Bool-cases (contains merged id)) [
  | inl h ↦ rw h (add_new-AreDistinct merged ids d)
  | inr h ↦ rw h (add_new-AreDistinct (merged ++ id ∷ []) ids (AreDistinct-append merged id d h))
]

cached_over-contains :
    (merged texts : List Bytes) (mime x : Bytes)
    → contains (cached_over merged texts mime) x ≡ (contains merged x || any_has texts mime x)
cached_over-contains merged [] mime x = ground arith
cached_over-contains merged (text ∷ texts) mime x =
    cached_over-contains (add_new merged (cached_ids text mime)) texts mime x
    ∙ (rw (add_new-contains merged (cached_ids text mime) x) (ground arith))

cached_over-AreDistinct :
    (merged texts : List Bytes) (mime : Bytes)
    → AreDistinct merged
    → AreDistinct (cached_over merged texts mime)
cached_over-AreDistinct merged [] mime d = d
cached_over-AreDistinct merged (text ∷ texts) mime d =
    cached_over-AreDistinct (add_new merged (cached_ids text mime)) texts mime
      (add_new-AreDistinct merged (cached_ids text mime) d)

-- The cache has for a type exactly the identifiers that some file has for it, each once.
load_mime_cache-contains :
    (texts : List Bytes) (mime : Bytes)
    → AreDistinct (list_at (load_mime_cache texts mime))
      × ((x : Bytes) → contains (list_at (load_mime_cache texts mime)) x ≡ any_has texts mime x)
unfolding load_mime_cache
load_mime_cache-contains texts mime =
    from_list (cached_over [] texts mime) (cached_over-AreDistinct [] texts mime tt)
      (λ x. cached_over-contains [] texts mime x ∙ (unfold contains in refl))
  where
    from_list :
        (ids : List Bytes)
        → AreDistinct ids
        → ((x : Bytes) → contains ids x ≡ any_has texts mime x)
        → AreDistinct (list_at (unless_empty ids))
          × ((x : Bytes) → contains (list_at (unless_empty ids)) x ≡ any_has texts mime x)
    from_list [] d h = (d, h)
    from_list (id ∷ ids) d h = (d, h)
