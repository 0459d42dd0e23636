-- ===== src/Desktop/Render/Every.antt =====
-- desktop/mimeapps.go: a property that holds of the lines of all entries.
use mathlib.Core.Option.{none-ne-some, some-injective}
use dankgo.Prelude.{some, List, [], ◌∷◌, ◌++◌, subst, ◌≡◌, Bool-cases, inl, inr, map, All}
use dankgo.Prelude.Text.{Bytes, eqb, eqb_iff}
use dankgo.Prelude.Members.{contains}
use dankgo.Desktop.Groups.{trim_space, is_empty}
use dankgo.Desktop.Render.{Entries, line_of, lookup, missing, separator}

module _ {A : Type 0} (P : A → Type 0) where
  pub All-append : (xs ys : List A) → All P xs → All P ys → All P (xs ++ ys)
  All-append [] ys h k = k
  All-append (x ∷ xs) ys (h, hs) k = (h, All-append xs ys hs k)

abbrev pub AreWritten : (Bytes → Type 0) → Entries → Type 0
AreWritten P es = All P (map line_of es)

module _ (P : Bytes → Type 0) where
  pub missing-AreWritten :
      (done : List Bytes) (es : Entries) → AreWritten P es → AreWritten P (missing done es)
  missing-AreWritten done [] h = tt
  missing-AreWritten done ((k, v) ∷ es) (h, hs) = elim (Bool-cases (contains done k)) [
    | inl d ↦ rw d (missing-AreWritten done es hs)
    | inr d ↦ rw d (h, missing-AreWritten done es hs)
  ]

  pub lookup-AreWritten :
      (es : Entries) (k v : Bytes) → AreWritten P es → lookup es k ≡ some v → P (line_of (k, v))
  lookup-AreWritten [] k v h e = absurd (none-ne-some _ e)
  lookup-AreWritten ((j, w) ∷ es) k v (h, hs) e = elim (Bool-cases (eqb j k)) [
    | inl s ↦
        let same : w ≡ v = some-injective _ _ (rw s at e) in
        subst (λ x. P (line_of (x, v))) ((eqb_iff j k).0 s) (subst (λ x. P (line_of (j, x))) same h)
    | inr s ↦ lookup-AreWritten es k v hs (rw s at e)
  ]

  pub separator-All : (out : List Bytes) → P [] → All P (separator out)
  separator-All [] h = tt
  separator-All (line ∷ []) h = elim (Bool-cases (is_empty (trim_space line))) [
    | inl e ↦ rw e tt
    | inr e ↦ rw e (h, tt)
  ]
  separator-All (line ∷ next ∷ lines) h = separator-All (next ∷ lines) h
