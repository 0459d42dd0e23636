-- ===== src/Files/Watch/Replay/Update.antt =====
-- Two listings with the same names whose untouched entries agree: taking the touched entries of the
-- second by name turns the first into the second.
use dankgo.Prelude.{
  ◌≡◌, refl, sym, ap, ap₂, subst, ◌∙◌, inl, inr, Bool, true, false, not, List, [], ◌∷◌, arith, keep,
  All, Bool-cases,
}
use dankgo.Prelude.Text.{Bytes, eqb, eqb_iff}
use dankgo.Files.Entry.{Entry}
use dankgo.Files.Names.{has, names_of, Lacks, IsUnique}
use dankgo.Files.Names.Lookup.{has-eqb}
use dankgo.Files.Watch.Batch.{update_from, update_all}

-- The entry that a client takes for any entry of this name is this one.
abbrev Supplies : List Entry → Entry → Type 0
Supplies cs y = (x : Entry) → eqb y.name x.name ≡ true → update_from cs x ≡ y

abbrev pub untouched : List Bytes → Entry → Bool
untouched touched e = not (has touched e.name)

module _ (touched : List Bytes) where
  abbrev Aligned : List Entry → List Entry → Type 0
  Aligned [] [] = Unit
  Aligned [] (y ∷ ys) = ⊥
  Aligned (x ∷ xs) [] = ⊥
  Aligned (x ∷ xs) (y ∷ ys) =
      (x.name ≡ y.name) × (has touched x.name ≡ false → x ≡ y) × Aligned xs ys

  head_name :
      (x y : Entry) (xs ys : List Entry) → names_of (x ∷ xs) ≡ names_of (y ∷ ys) → x.name ≡ y.name
  unfolding names_of
  head_name x y xs ys h = cc

  tail_names :
      (x y : Entry) (xs ys : List Entry)
      → names_of (x ∷ xs) ≡ names_of (y ∷ ys)
      → names_of xs ≡ names_of ys
  unfolding names_of
  tail_names x y xs ys h = cc

  aligned :
      (xs ys : List Entry)
      → names_of xs ≡ names_of ys
      → keep (untouched touched) xs ≡ keep (untouched touched) ys
      → Aligned xs ys
  aligned [] [] h k = tt
  aligned [] (y ∷ ys) h k = (unfold names_of in cc (h))
  aligned (x ∷ xs) [] h k = (unfold names_of in cc (h))
  aligned (x ∷ xs) (y ∷ ys) h k =
      let n = head_name x y xs ys h in
      let ns = tail_names x y xs ys h in
      let t = ap (has touched) n in
      elim (Bool-cases (has touched x.name)) [
        | inl on ↦ (n, λ off. cc, aligned xs ys ns (ground arith))
        | inr off ↦ (n, λ _. ground arith, aligned xs ys ns (ground arith))
      ]

  update_all-Aligned :
      (cs xs ys : List Entry)
      → Aligned xs ys
      → ((x : Entry) → has touched x.name ≡ false → update_from cs x ≡ x)
      → All (λ y. has touched y.name ≡ true → Supplies cs y) ys
      → update_all cs xs ≡ ys
  unfolding update_all
  update_all-Aligned cs [] [] a u s = refl
  update_all-Aligned cs [] (y ∷ ys) a u s = absurd a
  update_all-Aligned cs (x ∷ xs) [] a u s = absurd a
  update_all-Aligned cs (x ∷ xs) (y ∷ ys) (n, same, a) u (s, ss) =
      ap₂ (λ e es. e ∷ es) one (update_all-Aligned cs xs ys a u ss)
    where
      one : update_from cs x ≡ y
      one = elim (Bool-cases (has touched x.name)) [
        | inl on ↦ s (sym (ap (has touched) n) ∙ on) x ((eqb_iff y.name x.name).1 (sym n))
        | inr off ↦ u x off ∙ same off
      ]

-- An update with entries of other names changes nothing.
pub update_from-other :
    (touched : List Bytes) (q : Entry → Bool) (es : List Entry)
    → ((e : Entry) → q e ≡ true → has touched e.name ≡ true)
    → (x : Entry) → has touched x.name ≡ false
    → update_from (keep q es) x ≡ x
unfolding update_from
update_from-other touched q [] on x h = refl
update_from-other touched q (e ∷ es) on x h = elim (Bool-cases (q e)) [
  | inr fail ↦ rw fail (update_from-other touched q es on x h)
  | inl pass ↦ rw pass (elim (Bool-cases (eqb e.name x.name)) [
    | inl same ↦ absurd (ground (arith, on e pass, has-eqb touched e.name x.name same))
    | inr other ↦ rw other (update_from-other touched q es on x h)
  ])
]

-- Of entries with unique names, those that pass supply themselves.
Supplies-behind :
    (e : Entry) (cs xs : List Entry) (P : Entry → Type 0)
    → Lacks e.name xs
    → All (λ y. P y → Supplies cs y) xs
    → All (λ y. P y → Supplies (e ∷ cs) y) xs
unfolding update_from
Supplies-behind e cs [] P l h = tt
Supplies-behind e cs (y ∷ ys) P (l, ls) (h, hs) = (
  λ p x same.
      ground
        (arith, h p x same, eqb_iff y.name x.name, eqb_iff e.name x.name, eqb_iff y.name e.name),
  Supplies-behind e cs ys P ls hs,
)

keep_pass :
    (q : Entry → Bool) (e : Entry) (es : List Entry) → q e ≡ true → keep q (e ∷ es) ≡ e ∷ keep q es
keep_pass q e es h = rw h

keep_fail :
    (q : Entry → Bool) (e : Entry) (es : List Entry) → q e ≡ false → keep q (e ∷ es) ≡ keep q es
keep_fail q e es h = rw h

pub Supplies-self :
    (q : Entry → Bool) (es : List Entry)
    → IsUnique es
    → All (λ y. q y ≡ true → Supplies (keep q es) y) es
unfolding update_from
Supplies-self q [] u = tt
Supplies-self q (e ∷ es) (l, u) = elim (Bool-cases (q e)) [
  | inl pass ↦
      subst (λ cs. All (λ y. q y ≡ true → Supplies cs y) (e ∷ es)) (sym (keep_pass q e es pass))
        (
          λ _ x same. rw same,
          Supplies-behind e (keep q es) es (λ y. q y ≡ true) l (Supplies-self q es u),
        )
  | inr fail ↦
      subst (λ cs. All (λ y. q y ≡ true → Supplies cs y) (e ∷ es)) (sym (keep_fail q e es fail))
        (λ p. cc, Supplies-self q es u)
]

pub update_all_lem :
    (touched : List Bytes) (cs xs ys : List Entry)
    → names_of xs ≡ names_of ys
    → keep (untouched touched) xs ≡ keep (untouched touched) ys
    → ((x : Entry) → has touched x.name ≡ false → update_from cs x ≡ x)
    → All (λ y. has touched y.name ≡ true → Supplies cs y) ys
    → update_all cs xs ≡ ys
update_all_lem touched cs xs ys n k =
    update_all-Aligned touched cs xs ys (aligned touched xs ys n k)
