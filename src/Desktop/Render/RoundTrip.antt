-- ===== src/Desktop/Render/RoundTrip.antt =====
-- desktop/mimeapps.go: what renderMimeapps writes is read back as the associations.
use mathlib.Core.Bool.{true≢false}
use mathlib.Core.Option.{none-ne-some, some-injective}
use dankgo.Prelude.{
  ◌&&◌, true, false, Option, none, some, List, [], ◌∷◌, ap, refl, sym, subst, ◌≡◌, ◌∙◌, arith,
  Bool-cases, inl, inr, All,
}
use dankgo.Prelude.Text.{Bytes, codes, eqb, eqb_iff}
use dankgo.Prelude.Split.{IsFree, split}
use dankgo.Prelude.Members.{GoMap, contains}
use dankgo.Desktop.Associations.{
  MimeAssociations, associations_from_data, first_part, all_parts, key_of,
}
use dankgo.Desktop.Render.{
  Entries, Keys, are_safe, clone, flat, flatten, group_entries, managed_groups, rendered, text_of,
  render_mimeapps,
}
use dankgo.Desktop.Render.Fields.{AreFields}
use dankgo.Desktop.Render.Steps.{and_true}
use dankgo.Desktop.Render.Every.{AreWritten}
use dankgo.Desktop.Render.Verbatim.{rendered-All}
use dankgo.Desktop.Render.Completed.{rendered-IsOut}
use dankgo.Desktop.Render.Text.{parse_groups-text_of, scan_lines-IsFree}
use dankgo.Desktop.Render.Values.{flat-IsValue, first_part-id, all_parts-flat}
use dankgo.Desktop.Render.Fit.{
  IsKey, IsOneId, AreIds, IsValue, IsFit, AreFit, are_safe-AreWritten, clone-AreFields,
  lookup-listed,
}

fit_values :
    (P : Option (List Bytes) → Type 0) (m : GoMap (List Bytes)) (ks : List Bytes)
    → ((o : Option (List Bytes)) → P o → IsValue (flat o))
    → All (λ k. IsKey k × P (m k)) ks
    → All (λ k. IsKey k × IsValue (flat (m k))) ks
fit_values P m [] h f = tt
fit_values P m (k ∷ ks) h ((i, v), f) = ((i, h (m k) v), fit_values P m ks h f)

id-IsValue : (o : Option Bytes) → IsOneId o → IsValue o
id-IsValue none i = tt
id-IsValue (some id) i = i.trimmed

fit_ids :
    (m : GoMap Bytes) (ks : List Bytes)
    → All (λ k. IsKey k × IsOneId (m k)) ks
    → All (λ k. IsKey k × IsValue (m k)) ks
fit_ids m [] f = tt
fit_ids m (k ∷ ks) ((i, v), f) = ((i, id-IsValue (m k) v), fit_ids m ks f)

-- What holds of the entries of the three groups holds of those of any managed group.
each_group :
    (P : Entries → Type 0) (keys : Keys) (assoc : MimeAssociations)
    → P (clone assoc.defaults keys.defaults)
    → P (flatten assoc.added keys.added)
    → P (flatten assoc.removed keys.removed)
    → (g : Bytes) (es : Entries) → group_entries keys assoc g ≡ some es
    → P es
each_group P keys assoc d a m g es e = elim (Bool-cases (eqb (codes "Default Applications") g)) [
  | inl s ↦ subst P (some-injective _ _ (rw s at e)) d
  | inr s ↦ elim (Bool-cases (eqb (codes "Added Associations") g)) [
    | inl t ↦ subst P (some-injective _ _ (rw (s, t) at e)) a
    | inr t ↦ elim (Bool-cases (eqb (codes "Removed Associations") g)) [
      | inl u ↦ subst P (some-injective _ _ (rw (s, t, u) at e)) m
      | inr u ↦ absurd (none-ne-some _ (rw (s, t, u) at e))
    ]
  ]
]

fit_among :
    {A : Type 0} (P : Option A → Type 0) (ks : List Bytes) (m : GoMap A) (k : Bytes)
    → All (λ x. IsKey x × P (m x)) ks
    → contains ks k ≡ true
    → P (m k)
unfolding contains
fit_among P [] m k f h = absurd (true≢false (sym h))
fit_among P (x ∷ ks) m k ((i, v), f) h = elim (Bool-cases (eqb x k)) [
  | inl s ↦ subst (λ y. P (m y)) ((eqb_iff x k).0 s) v
  | inr s ↦ fit_among P ks m k f (rw s at h)
]

fit_at :
    {A : Type 0} (P : Option A → Type 0) (ks : List Bytes) (m : GoMap A)
    → P none
    → IsFit P ks m
    → (k : Bytes) → P (m k)
fit_at P ks m n f k = elim (Bool-cases (contains ks k)) [
  | inl h ↦ fit_among P ks m k f.fit h
  | inr h ↦ subst P (sym (f.listed k h)) n
]

flat_listed :
    (ks : List Bytes) (m : GoMap (List Bytes))
    → IsFit AreIds ks m
    → (k : Bytes) → contains ks k ≡ false
    → flat (m k) ≡ none
flat_listed ks m f k h = ap flat (f.listed k h)

same_maps :
    (a b : MimeAssociations)
    → ((k : Bytes) → a.defaults k ≡ b.defaults k)
    → ((k : Bytes) → a.added k ≡ b.added k)
    → ((k : Bytes) → a.removed k ≡ b.removed k)
    → a ≡ b
same_maps a b d e m =
    λ i. record { defaults = λ k. d k i; added = λ k. e k i; removed = λ k. m k i }

rendered_back :
    (original : Bytes) (keys : Keys) (assoc : MimeAssociations)
    → AreFit keys assoc
    → are_safe (clone assoc.defaults keys.defaults) ≡ true
    → are_safe (flatten assoc.added keys.added) ≡ true
    → are_safe (flatten assoc.removed keys.removed) ≡ true
    → associations_from_data (text_of (rendered (group_entries keys assoc) original)) ≡ assoc
unfolding associations_from_data eqb split
rendered_back original keys assoc f sd sa sm =
    let managed = group_entries keys assoc in
    let text = text_of (rendered managed original) in
    let dn = codes "Default Applications" in
    let an = codes "Added Associations" in
    let rn = codes "Removed Associations" in
    let d = clone assoc.defaults keys.defaults in
    let a = flatten assoc.added keys.added in
    let m = flatten assoc.removed keys.removed in
    let fields =
      each_group AreFields keys assoc
        (clone-AreFields assoc.defaults keys.defaults
          (fit_ids assoc.defaults keys.defaults f.defaults.fit) sd)
        (clone-AreFields (λ k. flat (assoc.added k)) keys.added
          (fit_values AreIds assoc.added keys.added flat-IsValue f.added.fit) sa)
        (clone-AreFields (λ k. flat (assoc.removed k)) keys.removed
          (fit_values AreIds assoc.removed keys.removed flat-IsValue f.removed.fit) sm) in
    let out = rendered-IsOut managed refl fields d a m original refl refl refl in
    let written =
      each_group (AreWritten (IsFree 10)) keys assoc (are_safe-AreWritten d sd)
        (are_safe-AreWritten a sa) (are_safe-AreWritten m sm) in
    let free =
      rendered-All (IsFree 10) managed written original tt (ground arith) (ground arith)
        (ground arith) (scan_lines-IsFree original) in
    let groups = parse_groups-text_of (rendered managed original) free in
    same_maps (associations_from_data text) assoc
      (λ k.
        ap first_part (
          ap (λ gs. key_of (gs dn) k) groups
          ∙ (out.defaults k ∙ lookup-listed assoc.defaults keys.defaults f.defaults.listed k))
        ∙ first_part-id (assoc.defaults k)
            (fit_at IsOneId keys.defaults assoc.defaults tt f.defaults k))
      (λ k.
        ap all_parts (
          ap (λ gs. key_of (gs an) k) groups
          ∙ (out.added k
              ∙ lookup-listed (λ x. flat (assoc.added x)) keys.added
                  (flat_listed keys.added assoc.added f.added) k))
        ∙ all_parts-flat (assoc.added k) (fit_at AreIds keys.added assoc.added tt f.added k))
      (λ k.
        ap all_parts (
          ap (λ gs. key_of (gs rn) k) groups
          ∙ (out.removed k
              ∙ lookup-listed (λ x. flat (assoc.removed x)) keys.removed
                  (flat_listed keys.removed assoc.removed f.removed) k))
        ∙ all_parts-flat (assoc.removed k)
            (fit_at AreIds keys.removed assoc.removed tt f.removed k))

-- Writing the associations into a file and reading the file gives the associations, where the keys of the three
-- maps are listed, each key is not empty, trimmed, without `=` and no comment, each application is not empty,
-- trimmed and without `;`, and renderMimeapps gives no error. The file may have held anything.
pub associations_from_data-render_mimeapps :
    (original : Bytes) (keys : Keys) (assoc : MimeAssociations) (text : Bytes)
    → AreFit keys assoc
    → render_mimeapps original keys assoc ≡ some text
    → associations_from_data text ≡ assoc
unfolding render_mimeapps managed_groups
associations_from_data-render_mimeapps original keys assoc text f e =
    let sd = are_safe (clone assoc.defaults keys.defaults) in
    let sa = are_safe (flatten assoc.added keys.added) in
    let sm = are_safe (flatten assoc.removed keys.removed) in
    elim (Bool-cases (sd && (sa && sm))) [
      | inl s ↦
          let (hd, h) = and_true sd (sa && sm) s in
          let (ha, hm) = and_true sa sm h in
          ap associations_from_data (sym (some-injective _ _ (rw s at e)))
          ∙ rendered_back original keys assoc f hd ha hm
      | inr s ↦ absurd (none-ne-some _ (rw s at e))
    ]
