-- ===== src/Desktop/Render/Values.antt =====
-- desktop/mimeapps.go: a list of applications that is written as a value is read back by splitList.
use mathlib.Core.Bool.{true≢false}
use dankgo.Prelude.{ℕ, false, Option, none, some, List, [], ◌∷◌, ◌++◌, ap, refl, ◌≡◌, All}
use dankgo.Prelude.Text.{Bytes}
use dankgo.Prelude.Split.{IsFree, join, join_more, split, split-free, split_middle, split-join_more}
use dankgo.Desktop.Groups.{is_empty, trim_space, split_list, trimmed_parts}
use dankgo.Desktop.Associations.{first_of, first_part, all_parts}
use dankgo.Desktop.Render.{flat}
use dankgo.Desktop.Render.Fields.{first_space, last_space-append, trim_space-IsTrimmed}
use dankgo.Desktop.Render.Fit.{IsId, IsOneId, AreIds, IsValue}

split_list-id : (id : Bytes) → IsId id → split_list id ≡ id ∷ []
unfolding split_list
split_list-id id i =
    rw (i.nonempty, split-free 59 id i.no_semicolon, trim_space-IsTrimmed id i.trimmed, i.nonempty)
      refl

trimmed_parts-ids : (ids : List Bytes) → All IsId ids → trimmed_parts (ids ++ [] ∷ []) ≡ ids
unfolding trim_space
trimmed_parts-ids [] f = refl
trimmed_parts-ids (id ∷ ids) (i, f) =
    rw (trim_space-IsTrimmed id i.trimmed, i.nonempty) (ap (λ x. id ∷ x) (trimmed_parts-ids ids f))

ids-IsFree : (ids : List Bytes) → All IsId ids → All (IsFree 59) ids
ids-IsFree [] f = tt
ids-IsFree (id ∷ ids) (i, f) = (i.no_semicolon, ids-IsFree ids f)

join_nonempty : (s : Bytes) (c : ℕ) → is_empty (s ++ c ∷ []) ≡ false
join_nonempty [] c = refl
join_nonempty (x ∷ s) c = refl

split_list-join : (ids : List Bytes) → All IsId ids → split_list (join 59 ids ++ 59 ∷ []) ≡ ids
unfolding split_list join split trim_space
split_list-join [] f = refl
split_list-join (id ∷ ids) (i, f) =
    rw
      (
        join_nonempty (join_more 59 id ids) 59,
        split_middle 59 (join_more 59 id ids) [],
        split-join_more 59 id ids i.no_semicolon (ids-IsFree ids f),
      )
      (trimmed_parts-ids (id ∷ ids) (i, f))

first_space-join :
    (id : Bytes) (ids : List Bytes) → IsId id → first_space (join_more 59 id ids ++ 59 ∷ []) ≡ false
first_space-join [] ids i = absurd (true≢false i.nonempty)
first_space-join (c ∷ id) [] i = i.trimmed.first
first_space-join (c ∷ id) (x ∷ ids) i = i.trimmed.first

pub flat-IsValue : (o : Option (List Bytes)) → AreIds o → IsValue (flat o)
unfolding join
flat-IsValue none f = tt
flat-IsValue (some []) f = record { first = refl; last = refl }
flat-IsValue (some (id ∷ ids)) (i, f) = record {
  first = first_space-join id ids i;
  last = last_space-append (join_more 59 id ids) [] 59;
}

pub first_part-id : (o : Option Bytes) → IsOneId o → first_part o ≡ o
first_part-id none i = refl
first_part-id (some id) i = ap first_of (split_list-id id i)

pub all_parts-flat : (o : Option (List Bytes)) → AreIds o → all_parts (flat o) ≡ o
all_parts-flat none f = refl
all_parts-flat (some ids) f = ap some (split_list-join ids f)
