-- ===== src/Desktop/Render/Fields.antt =====
-- desktop/mimeapps.go: what parseGroups reads from a line that renderMimeapps writes for a key.
use dankgo.Prelude.{
  ℕ, suc, ◌&&◌, Bool, true, false, Option, none, some, [], ◌∷◌, ◌++◌, ap, refl, sym, ◌≡◌, ◌∙◌,
  arith, ◌==◌, if◌then◌else◌, Bool-cases, inl, inr, take, drop, length,
}
use mathlib.Core.Bool.{true≢false}
use dankgo.Prelude.Text.{Bytes, eqb, eqb_iff}
use dankgo.Prelude.Split.{IsFree}
use dankgo.Prelude.Members.{GoMap}
use dankgo.Desktop.Groups.{
  Group, Parsing, is_space, skip_spaces, drop_spaces, trim_space, is_empty, first_is, index_byte,
  base_key, parse_line, in_group, with_key,
}
use dankgo.Desktop.Associations.{key_of, if_missing}
use dankgo.Desktop.Render.{Entries, line_of}

abbrev pub first_space : Bytes → Bool
first_space [] = false
first_space (c ∷ cs) = is_space c

abbrev pub last_space : Bytes → Bool
last_space [] = false
last_space (c ∷ []) = is_space c
last_space (c ∷ d ∷ cs) = last_space (d ∷ cs)

-- No white space stands at an end.
pub record IsTrimmed (s : Bytes) : Type 0 where
  pub first : first_space s ≡ false
  pub last : last_space s ≡ false

-- What a key and its value must be, so that the line that holds them is read back.
pub record IsField (key value : Bytes) : Type 0 where
  pub nonempty : is_empty key ≡ false
  pub trimmed : IsTrimmed key
  pub no_equals : IsFree 61 key
  pub no_bracket : IsFree 91 key
  pub no_comment : first_is 35 key ≡ false
  pub value_trimmed : IsTrimmed value

abbrev pub AreFields : Entries → Type 0
AreFields [] = Unit
AreFields ((k, v) ∷ es) = IsField k v × AreFields es

drop_spaces-last : (s : Bytes) → last_space s ≡ false → drop_spaces s ≡ s
drop_spaces-last [] h = refl
drop_spaces-last (c ∷ []) h = ground arith
drop_spaces-last (c ∷ d ∷ s) h = rw (drop_spaces-last (d ∷ s) h) (ground arith)

skip_spaces-first : (s : Bytes) → first_space s ≡ false → skip_spaces s ≡ s
skip_spaces-first [] h = refl
skip_spaces-first (c ∷ s) h = ground arith

pub trim_space-IsTrimmed : (s : Bytes) → IsTrimmed s → trim_space s ≡ s
unfolding trim_space
trim_space-IsTrimmed s t = rw (skip_spaces-first s t.first) (drop_spaces-last s t.last)

pub last_space-append : (a b : Bytes) (c : ℕ) → last_space (a ++ c ∷ b) ≡ last_space (c ∷ b)
last_space-append [] b c = refl
last_space-append (x ∷ []) b c = refl
last_space-append (x ∷ y ∷ a) b c = last_space-append (y ∷ a) b c

line_of-IsTrimmed : (k v : Bytes) → IsField k v → IsTrimmed (line_of (k, v))
line_of-IsTrimmed [] v f = absurd (true≢false f.nonempty)
line_of-IsTrimmed (c ∷ k) v f = record {
  first = f.trimmed.first;
  last = last_space-append (c ∷ k) v 61 ∙ behind v f.value_trimmed.last;
}
  where
    behind : (v : Bytes) → last_space v ≡ false → last_space (61 ∷ v) ≡ false
    behind [] h = ground arith
    behind (d ∷ v) h = h

index_byte-append : (b : ℕ) (k v : Bytes) → IsFree b k → index_byte b (k ++ b ∷ v) ≡ some (length k)
unfolding index_byte
index_byte-append b [] v f = ground arith
index_byte-append b (c ∷ k) v (h, f) = rw (h, index_byte-append b k v f) refl

index_byte-free : (b : ℕ) (k : Bytes) → IsFree b k → index_byte b k ≡ none
unfolding index_byte
index_byte-free b [] f = refl
index_byte-free b (c ∷ k) (h, f) = rw (h, index_byte-free b k f) refl

take-front : (k v : Bytes) → take (length k) (k ++ v) ≡ k
take-front [] v = refl
take-front (c ∷ k) v = ap (λ x. c ∷ x) (take-front k v)

drop-front : (c : ℕ) (k v : Bytes) → drop (suc (length k)) (k ++ c ∷ v) ≡ v
drop-front c [] v = refl
drop-front c (x ∷ k) v = drop-front c k v

base_key-free : (k : Bytes) → IsFree 91 k → base_key k ≡ k
unfolding base_key
base_key-free k f = rw (index_byte-free 91 k f) refl

line_of_nonempty : (k v : Bytes) → is_empty (line_of (k, v)) ≡ false
line_of_nonempty [] v = refl
line_of_nonempty (c ∷ k) v = refl

first_is-line_of :
    (b : ℕ) (k v : Bytes) → is_empty k ≡ false → first_is b (line_of (k, v)) ≡ first_is b k
first_is-line_of b [] v h = cc
first_is-line_of b (c ∷ k) v h = refl

first_is-free : (b : ℕ) (k : Bytes) → IsFree b k → first_is b k ≡ false
first_is-free b [] f = refl
first_is-free b (c ∷ k) (h, f) = h

nonempty_length : (k : Bytes) → is_empty k ≡ false → (length k == 0) ≡ false
nonempty_length [] h = cc
nonempty_length (c ∷ k) h = ground arith

-- The line of a field, in a group.
pub parse_line-line_of :
    (k v name : Bytes) (p : Parsing)
    → IsField k v
    → p.current ≡ some name
    → parse_line (trim_space (line_of (k, v))) p
      ≡ record p { groups = in_group name k v (p.groups name) p.groups }
unfolding parse_line
parse_line-line_of k v name p f c =
    rw
      (
        trim_space-IsTrimmed (line_of (k, v)) (line_of-IsTrimmed k v f),
        line_of_nonempty k v,
        first_is-line_of 35 k v f.nonempty,
        first_is-line_of 91 k v f.nonempty,
        f.no_comment,
        first_is-free 91 k f.no_bracket,
        c,
        index_byte-append 61 k v f.no_equals,
        nonempty_length k f.nonempty,
        take-front k (61 ∷ v),
        drop-front 61 k v,
        trim_space-IsTrimmed k f.trimmed,
        trim_space-IsTrimmed v f.value_trimmed,
        base_key-free k f.no_bracket,
      )
      refl

with_key-same :
    (k v j : Bytes) (o : Option Bytes) (m : Group)
    → eqb k j ≡ true
    → m j ≡ o
    → with_key k v o m j ≡ if_missing (m j) (some v)
with_key-same k v j none m h e = rw (h, e) refl
with_key-same k v j (some x) m h e = rw e refl

with_key-other :
    (k v j : Bytes) (o : Option Bytes) (m : Group) → eqb k j ≡ false → with_key k v o m j ≡ m j
with_key-other k v j none m h = rw h refl
with_key-other k v j (some x) m h = refl

-- The first value of a key is kept.
with_key-if_missing :
    (k v j : Bytes) (m : Group)
    → with_key k v (m k) m j ≡ (if eqb k j then if_missing (m j) (some v) else m j)
with_key-if_missing k v j m = elim (Bool-cases (eqb k j)) [
  | inl h ↦ rw h (with_key-same k v j (m k) m h (ap m (sym ((eqb_iff k j).0 h))))
  | inr h ↦ rw h (with_key-other k v j (m k) m h)
]

abbrev pub view : Parsing → Bytes → Bytes → Option Bytes
view p g j = key_of (p.groups g) j

abbrev pub is_some : Option Group → Bool
is_some none = false
is_some (some m) = true

in_group-view :
    (k v name g j : Bytes) (o : Option Group) (gs : GoMap Group)
    → gs name ≡ o
    → is_some o ≡ true
    → key_of (in_group name k v o gs g) j
      ≡ (if eqb name g && eqb k j then if_missing (key_of (gs g) j) (some v) else key_of (gs g) j)
in_group-view k v name g j none gs e h = cc
in_group-view k v name g j (some m) gs e h = elim (Bool-cases (eqb name g)) [
  | inl s ↦ rw (s, ap gs (sym ((eqb_iff name g).0 s)) ∙ e) (with_key-if_missing k v j m)
  | inr s ↦ rw s refl
]

-- Reading the line of a field sets its key in the current group, unless it is set.
pub view-line_of :
    (k v name g j : Bytes) (p : Parsing)
    → IsField k v
    → p.current ≡ some name
    → is_some (p.groups name) ≡ true
    → view (parse_line (trim_space (line_of (k, v))) p) g j
      ≡ (if eqb name g && eqb k j then if_missing (view p g j) (some v) else view p g j)
view-line_of k v name g j p f c e =
    rw (parse_line-line_of k v name p f c)
      (in_group-view k v name g j (p.groups name) p.groups refl e)
