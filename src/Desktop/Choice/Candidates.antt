-- ===== src/Desktop/Choice/Candidates.antt =====
-- desktop/mime.go: what the loops of GetDefault find, and what add keeps.
use dankgo.Prelude.{
  ◌≡◌, refl, ◌∙◌, Bool, true, false, not, ◌&&◌, ◌||◌, some, List, [], ◌∷◌, arith, Bool-cases, inl,
  inr, subst,
}
use mathlib.Core.Option.{none-ne-some, some-injective}
use dankgo.Prelude.Text.{Bytes, eqb, eqb_iff, eqb_refl}
use dankgo.Prelude.Members.{contains, contains-append, AreDistinct, AreDistinct-append}
use dankgo.Desktop.Groups.{is_empty}
use dankgo.Desktop.Choice.{first_kept, add, add_all}

-- What passes the conditions of add.
abbrev pub kept_by : (Bytes → Bool) → Bytes → Bool
kept_by removed x = not (is_empty x) && not (removed x)

add-contains :
    (removed : Bytes → Bool) (id : Bytes) (out : List Bytes) (x : Bytes)
    → contains (add removed id out) x ≡ (contains out x || (eqb id x && kept_by removed x))
add-contains removed id out x = elim (Bool-cases (eqb id x)) [
  | inl e ↦
      subst
        (λ y. contains (add removed id out) y ≡ (contains out y || (eqb id y && kept_by removed y)))
        ((eqb_iff id x).0 e) at_itself
  | inr e ↦ rw e (elim (Bool-cases (is_empty id || (removed id || contains out id))) [
    | inl h ↦ rw h (or_false (contains out x))
    | inr h ↦ rw h (contains-append out (id ∷ []) x ∙ (unfold contains in (rw e refl)))
  ])
]
  where
    or_false : (b : Bool) → b ≡ (b || false)
    or_false b = ground arith

    new : (b : Bool) → (b || (true || false)) ≡ true
    new b = ground arith

    at_itself :
        contains (add removed id out) id ≡ (contains out id || (eqb id id && kept_by removed id))
    at_itself =
        rw (eqb_refl id) (elim (Bool-cases (is_empty id || (removed id || contains out id))) [
          | inl h ↦ rw h (ground arith)
          | inr h ↦ rw h (
              contains-append out (id ∷ []) id
              ∙ (unfold contains in (rw (eqb_refl id) (new (contains out id) ∙ (ground arith)))))
        ])

-- Exactly the texts among those that are added, and that pass, are in the result.
pub add_all-contains :
    (removed : Bytes → Bool) (ids out : List Bytes) (x : Bytes)
    → contains (add_all removed ids out) x
      ≡ (contains out x || (contains ids x && kept_by removed x))
unfolding add_all
add_all-contains removed [] out x = unfold contains in ground arith
add_all-contains removed (id ∷ ids) out x =
    add_all-contains removed ids (add removed id out) x
    ∙ (rw (add-contains removed id out x) (unfold contains in ground arith))

pub add_all-AreDistinct :
    (removed : Bytes → Bool) (ids out : List Bytes)
    → AreDistinct out
    → AreDistinct (add_all removed ids out)
unfolding add_all
add_all-AreDistinct removed [] out d = d
add_all-AreDistinct removed (id ∷ ids) out d =
    add_all-AreDistinct removed ids (add removed id out) added
  where
    added : AreDistinct (add removed id out)
    added = elim (Bool-cases (is_empty id || (removed id || contains out id))) [
      | inl h ↦ rw h d
      | inr h ↦ rw h (AreDistinct-append out id d (ground arith))
    ]

pub first_kept-contains :
    (removed ids : List Bytes) (x : Bytes) → first_kept removed ids ≡ some x → contains ids x ≡ true
unfolding first_kept contains
first_kept-contains removed [] x h = absurd (none-ne-some _ h)
first_kept-contains removed (id ∷ ids) x h = elim (Bool-cases (contains removed id)) [
  | inl e ↦ let ih = first_kept-contains removed ids x (rw e at h) in rw ih (ground arith)
  | inr e ↦
      let found : some id ≡ some x = rw e at h in rw (some-injective _ _ found, eqb_refl x) refl
]
