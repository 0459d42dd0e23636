-- ===== src/Desktop/Choice/Chosen.antt =====
-- desktop/mimeapps.go and desktop/mime.go: a default that is set is the one that GetDefault returns.
use dankgo.Prelude.{
  ℕ, zero, suc, ◌≡◌, refl, sym, ap, ◌∙◌, true, false, Option, none, some, List, [], ◌∷◌, ◌++◌,
  Bool-cases, inl, inr, subst, All, length,
}
use mathlib.Core.Option.{none-ne-some, some-injective}
use dankgo.Prelude.Text.{Bytes, eqb, eqb_iff, eqb_refl}
use dankgo.Prelude.Members.{contains, contains-append, list_at}
use dankgo.Desktop.Groups.{is_empty}
use dankgo.Desktop.Associations.{
  MimeAssociations, new_associations, merge, merge_all, merged_associations, set_one, set_each,
  set_default_associations, desktop_id, if_missing, appended, without, removed_without,
  unless_empty,
}
use dankgo.Desktop.Chain.{
  Pairs, Tables, canonical_mime, mime_chain, add_parents, parents_of, walk, chain_from,
}
use dankgo.Desktop.Chain.Walk.{by_visit}
use dankgo.Desktop.Choice.{
  Desktop, default_in, get_default, or_first, removed_at, kept_default, listed_in, entry_in,
}

abbrev first : List Bytes → Option Bytes
first [] = none
first (x ∷ xs) = some x

-- The chain starts with the canonical type.
add_parents-first :
    (ps : List Bytes) (c : Bytes) (cs queue : List Bytes)
    → first ((add_parents ps (c ∷ cs, queue)).0) ≡ some c
unfolding add_parents
add_parents-first [] c cs queue = refl
add_parents-first (p ∷ ps) c cs queue =
    by_visit (λ s. first (s.0) ≡ some c) p ps (c ∷ cs) queue (λ h. add_parents-first ps c cs queue)
      (λ h. add_parents-first ps c (cs ++ p ∷ []) (queue ++ p ∷ []))

walk-first :
    (kvs : Pairs) (left : ℕ) (root : Bytes) (chain queue : List Bytes)
    → first chain ≡ some root
    → first ((walk kvs left (chain, queue)).0) ≡ some root
unfolding walk
walk-first kvs zero root chain queue h = h
walk-first kvs (suc left) root chain [] h = walk-first kvs left root chain [] h
walk-first kvs (suc left) root [] (cur ∷ queue) h = absurd (none-ne-some _ h)
walk-first kvs (suc left) root (c ∷ cs) (cur ∷ queue) h =
    let s = add_parents (parents_of kvs cur) (c ∷ cs, queue) in
    walk-first kvs left root (s.0) (s.1) (add_parents-first (parents_of kvs cur) c cs queue ∙ h)

mime_chain-first :
    (t : Tables) (mime : Bytes) → first (mime_chain t mime) ≡ some (canonical_mime t mime)
unfolding mime_chain chain_from
mime_chain-first t mime =
    let root = canonical_mime t mime in
    walk-first t.subclasses (suc (length t.subclasses)) root (root ∷ []) (root ∷ []) refl

without-contains : (id : Bytes) (ids : List Bytes) → contains (without id ids) id ≡ false
unfolding contains
without-contains id [] = refl
without-contains id (x ∷ xs) =
    let ih = without-contains id xs in
    elim (Bool-cases (eqb x id)) [ inl e ↦ rw e ih | inr e ↦ rw (e, e) ih ]

removed_without-contains :
    (id : Bytes) (o : Option (List Bytes)) → contains (list_at (removed_without id o)) id ≡ false
removed_without-contains id none = unfold contains in refl
removed_without-contains id (some ids) = kept_or_none (without id ids) (without-contains id ids)
  where
    kept_or_none :
        (xs : List Bytes) → contains xs id ≡ false → contains (list_at (unless_empty xs)) id ≡ false
    kept_or_none [] h = h
    kept_or_none (x ∷ xs) h = h

-- The application is the default of the type and not removed for it.
record IsDefault (id mime : Bytes) (a : MimeAssociations) : Type 0 where
  chosen : a.defaults mime ≡ some id
  kept : contains (list_at (a.removed mime)) id ≡ false

module _ (id mime : Bytes) where
  set_one-chosen :
      (a : MimeAssociations) → is_empty mime ≡ false → IsDefault id mime (set_one id mime a)
  unfolding set_one
  set_one-chosen a h = record {
    chosen = rw (h, eqb_refl mime) refl;
    kept = rw (h, eqb_refl mime) (removed_without-contains id (a.removed mime));
  }

  set_one-IsDefault :
      (other : Bytes) (a : MimeAssociations)
      → IsDefault id mime a
      → IsDefault id mime (set_one id other a)
  unfolding set_one
  set_one-IsDefault other a i = elim (Bool-cases (is_empty other)) [
    | inl e ↦ rw e i
    | inr e ↦ elim (Bool-cases (eqb other mime)) [
      | inl s ↦ rw e (record {
        chosen = rw s refl;
        kept = rw s (removed_without-contains id (a.removed other));
      })
      | inr s ↦ rw e (record { chosen = rw s i.chosen; kept = rw s i.kept })
    ]
  ]

  set_each-IsDefault :
      (mimes : List Bytes) (a : MimeAssociations)
      → IsDefault id mime a
      → IsDefault id mime (set_each id mimes a)
  set_each-IsDefault [] a i = i
  set_each-IsDefault (m ∷ mimes) a i =
      set_each-IsDefault mimes (set_one id m a) (set_one-IsDefault m a i)

  set_each-chosen :
      (mimes : List Bytes) (a : MimeAssociations)
      → is_empty mime ≡ false
      → contains mimes mime ≡ true
      → IsDefault id mime (set_each id mimes a)
  unfolding contains
  set_each-chosen [] a h c = absurd (cc)
  set_each-chosen (m ∷ mimes) a h c = elim (Bool-cases (eqb m mime)) [
    | inl e ↦ set_each-IsDefault mimes (set_one id m a) (
        subst (λ x. IsDefault id mime (set_one id x a)) (sym ((eqb_iff m mime).0 e))
          (set_one-chosen a h))
    | inr e ↦ set_each-chosen mimes (set_one id m a) h (rw e at c)
  ]

  merge-IsDefault :
      (merged a : MimeAssociations)
      → contains (list_at (a.removed mime)) id ≡ false
      → IsDefault id mime merged
      → IsDefault id mime (merge merged a)
  unfolding merge
  merge-IsDefault merged a h i = record {
    chosen = ap (λ o. if_missing o (a.defaults mime)) i.chosen;
    kept = both (merged.removed mime) (a.removed mime) i.kept h;
  }
    where
      both :
          (old new : Option (List Bytes))
          → contains (list_at old) id ≡ false
          → contains (list_at new) id ≡ false
          → contains (list_at (appended old new)) id ≡ false
      both old none h k = h
      both old (some new) h k = contains-append (list_at old) new id ∙ (rw (h, k) refl)

  merge_all-IsDefault :
      (merged : MimeAssociations) (files : List MimeAssociations)
      → All (λ a. contains (list_at (a.removed mime)) id ≡ false) files
      → IsDefault id mime merged
      → IsDefault id mime (merge_all merged files)
  unfolding merge_all
  merge_all-IsDefault merged [] h i = i
  merge_all-IsDefault merged (a ∷ files) (k, h) i =
      merge_all-IsDefault (merge merged a) files h (merge-IsDefault merged a k i)

  merge-new :
      (a : MimeAssociations) → IsDefault id mime a → IsDefault id mime (merge new_associations a)
  unfolding merge new_associations
  merge-new a i = record { chosen = i.chosen; kept = same (a.removed mime) i.kept }
    where
      same :
          (o : Option (List Bytes))
          → contains (list_at o) id ≡ false
          → contains (list_at (appended none o)) id ≡ false
      same none h = h
      same (some ids) h = h

  default_in-first :
      (d : Desktop) (chain : List Bytes)
      → first chain ≡ some mime
      → IsDefault id mime d.merged
      → default_in d chain ≡ some id
  unfolding default_in
  default_in-first d [] h i = absurd (none-ne-some _ h)
  default_in-first d (c ∷ cs) h i =
      ap (λ m. or_first (kept_default (removed_at d m) (d.merged.defaults m)) (default_in d cs))
        (some-injective _ _ h)
      ∙ (rw (i.chosen, i.kept) refl)

-- After the user's file is updated, GetDefault returns the application that was set for each of the types, where
-- the type is canonical and not empty, and no other file removes the application for it.
pub get_default-set_default_associations :
    (d : Desktop) (mimes : List Bytes) (id mime : Bytes) (user : MimeAssociations)
    (others : List MimeAssociations)
    → d.merged ≡ merged_associations (set_default_associations mimes id user ∷ others)
    → contains mimes mime ≡ true
    → is_empty mime ≡ false
    → canonical_mime d.tables mime ≡ mime
    → All (λ a. contains (list_at (a.removed mime)) (desktop_id id) ≡ false) others
    → get_default d mime ≡ some (desktop_id id)
unfolding get_default
get_default-set_default_associations d mimes id mime user others m c e k o =
    let chain = mime_chain d.tables mime in
    let target = desktop_id id in
    let updated : IsDefault target mime (set_default_associations mimes id user) =
      unfold set_default_associations in set_each-chosen target mime mimes user e c in
    let merged : IsDefault target mime
        (merged_associations (set_default_associations mimes id user ∷ others)) =
      unfold merged_associations merge_all in
      merge_all-IsDefault target mime
        (merge new_associations (set_default_associations mimes id user)) others o
        (merge-new target mime (set_default_associations mimes id user) updated) in
    ap
      (λ x. or_first x (
        or_first (listed_in d d.merged.added chain)
          (or_first (listed_in d d.cache chain) (entry_in d chain))))
      (default_in-first target mime d chain (mime_chain-first d.tables mime ∙ ap some k)
        (subst (IsDefault target mime) (sym m) merged))
