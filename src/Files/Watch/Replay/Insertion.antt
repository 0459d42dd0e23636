-- ===== src/Files/Watch/Replay/Insertion.antt =====
-- The loop of `diff` over the view by its parts, and why inserting at final indices in order gives
-- the view back.
use dankgo.Prelude.{
  ℕ, suc, ◌≡◌, refl, ap, Bool, not, ◌&&◌, ◌||◌, List, [], ◌∷◌, ◌++◌, arith, if◌then◌else◌, keep,
  length, append_assoc,
}
use dankgo.Prelude.Text.{Bytes}
use dankgo.Files.Entry.{Entry}
use dankgo.Files.Names.{has, names_of}
use dankgo.Files.Sort.Sorted.{insert_at}
use dankgo.Files.Watch.Batch.{insert_all}
use dankgo.Files.Watch.Diff.{scan_view}

-- The indices, from this one on, of the entries that pass.
unfoldable pub places : (Entry → Bool) → ℕ → List Entry → List ℕ
places p i [] = []
places p i (e ∷ es) = let rest = places p (suc i) es in if p e then i ∷ rest else rest

insert_at_end {ℓ} :
    {A : Type ℓ} (pre rest : List A) (e : A)
    → insert_at (length pre) e (pre ++ rest) ≡ pre ++ e ∷ rest
insert_at_end [] rest e = refl
insert_at_end (x ∷ pre) rest e = ap (λ l. x ∷ l) (insert_at_end pre rest e)

length_snoc {ℓ} : {A : Type ℓ} (pre : List A) (e : A) → length (pre ++ e ∷ []) ≡ suc (length pre)
length_snoc [] e = refl
length_snoc (x ∷ pre) e = ap suc (length_snoc pre e)

insert_all_after :
    (p : Entry → Bool) (pre es : List Entry)
    → insert_all (keep p es) (places p (length pre) es) (pre ++ keep (λ e. not (p e)) es)
      ≡ pre ++ es
unfolding insert_all places
insert_all_after p pre [] = refl
insert_all_after p pre (e ∷ es) =
    let ih = insert_all_after p (pre ++ e ∷ []) es in
    ground (
      arith,
      ih,
      length_snoc pre e,
      append_assoc pre (e ∷ []) (keep (λ e. not (p e)) es),
      append_assoc pre (e ∷ []) es,
      insert_at_end pre (keep (λ e. not (p e)) es) e,
    )

-- Where the list holds the entries that do not pass, inserting the others gives the whole list.
pub insert_all-places :
    (p : Entry → Bool) (es : List Entry)
    → insert_all (keep p es) (places p 0 es) (keep (λ e. not (p e)) es) ≡ es
insert_all-places p es = insert_all_after p [] es

module _ (existed touched : List Bytes) (in_order : Bool) where
  -- The entries that the client gets by insertion, and those that it changes in place.
  abbrev pub inserted : Entry → Bool
  inserted e = not (has existed e.name) || (has touched e.name && not in_order)

  abbrev pub moved : Entry → Bool
  moved e = has existed e.name && (has touched e.name && not in_order)

  abbrev pub updated : Entry → Bool
  updated e = has existed e.name && (has touched e.name && in_order)

  pub added-scan_view :
      (i : ℕ) (es : List Entry) → (scan_view existed touched in_order i es).added ≡ keep inserted es
  unfolding scan_view
  added-scan_view i [] = refl
  added-scan_view i (e ∷ es) = ground (arith, added-scan_view (suc i) es)

  pub added_at-scan_view :
      (i : ℕ) (es : List Entry)
      → (scan_view existed touched in_order i es).added_at ≡ places inserted i es
  unfolding scan_view places
  added_at-scan_view i [] = refl
  added_at-scan_view i (e ∷ es) = ground (arith, added_at-scan_view (suc i) es)

  pub changed-scan_view :
      (i : ℕ) (es : List Entry)
      → (scan_view existed touched in_order i es).changed ≡ keep updated es
  unfolding scan_view
  changed-scan_view i [] = refl
  changed-scan_view i (e ∷ es) = ground (arith, changed-scan_view (suc i) es)

  pub removed-scan_view :
      (i : ℕ) (es : List Entry)
      → (scan_view existed touched in_order i es).removed ≡ names_of (keep moved es)
  unfolding scan_view names_of
  removed-scan_view i [] = refl
  removed-scan_view i (e ∷ es) = ground (arith, removed-scan_view (suc i) es)
