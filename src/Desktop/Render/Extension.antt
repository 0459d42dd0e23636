-- ===== src/Desktop/Render/Extension.antt =====
-- desktop/mimeapps.go: lists of lines with more lines put in.
use dankgo.Prelude.{
  List, [], ◌∷◌, ◌++◌, ap, refl, sym, subst, ◌≡◌, ◌⊎◌, inl, inr, take, drop, take-append-drop, All,
  append-nil,
}
use dankgo.Prelude.Text.{Bytes}
use dankgo.Desktop.Render.{insert_at, inserted}

-- The second list is the first with lines put in that have the property.
abbrev pub IsExtension : (Bytes → Type 0) → List Bytes → List Bytes → Type 0
IsExtension P xs [] = xs ≡ []
IsExtension P xs (y ∷ ys) =
    ((rest : List Bytes) × (xs ≡ y ∷ rest) × IsExtension P rest ys) ⊎ (P y × IsExtension P xs ys)

module _ (P : Bytes → Type 0) where
  added_front :
      (xs new ys : List Bytes) → All P new → IsExtension P xs ys → IsExtension P xs (new ++ ys)
  added_front xs [] ys f e = e
  added_front xs (n ∷ new) ys (h, f) e = inr (h, added_front xs new ys f e)

  added_middle :
      (xs a new b : List Bytes)
      → All P new
      → IsExtension P xs (a ++ b)
      → IsExtension P xs (a ++ (new ++ b))
  added_middle xs [] new b f e = added_front xs new b f e
  added_middle xs (y ∷ a) new b f (inl (rest, s, e)) = inl (rest, s, added_middle rest a new b f e)
  added_middle xs (y ∷ a) new b f (inr (h, e)) = inr (h, added_middle xs a new b f e)

  pub kept_last :
      (xs ys : List Bytes) (line : Bytes)
      → IsExtension P xs ys
      → IsExtension P (xs ++ line ∷ []) (ys ++ line ∷ [])
  kept_last xs [] line e = inl ([], ap (λ x. x ++ line ∷ []) e, refl)
  kept_last xs (y ∷ ys) line (inl (rest, s, e)) =
      inl (rest ++ line ∷ [], ap (λ x. x ++ line ∷ []) s, kept_last rest ys line e)
  kept_last xs (y ∷ ys) line (inr (h, e)) = inr (h, kept_last xs ys line e)

  pub added_last :
      (xs ys new : List Bytes) → All P new → IsExtension P xs ys → IsExtension P xs (ys ++ new)
  added_last xs ys new f e =
      subst (λ x. IsExtension P xs (ys ++ x)) (append-nil new)
        (added_middle xs ys new [] f (subst (IsExtension P xs) (sym (append-nil ys)) e))

  pub inserted-IsExtension :
      (xs ys new : List Bytes)
      → All P new
      → IsExtension P xs ys
      → IsExtension P xs (inserted new ys)
  inserted-IsExtension xs ys new f e =
      let n = insert_at ys in
      added_middle xs (take n ys) new (drop n ys) f
        (subst (IsExtension P xs) (sym (take-append-drop n ys)) e)

  pub IsExtension-All : (xs ys : List Bytes) → All P xs → IsExtension P xs ys → All P ys
  IsExtension-All xs [] f e = tt
  IsExtension-All xs (y ∷ ys) f (inl (rest, s, e)) =
      let (h, hs) = subst (All P) s f in (h, IsExtension-All rest ys hs e)
  IsExtension-All xs (y ∷ ys) f (inr (h, e)) = (h, IsExtension-All xs ys f e)
