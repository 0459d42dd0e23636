-- ===== src/Desktop/Render/Unrelated.antt =====
-- desktop/mimeapps.go: the lines of a file that renderMimeapps leaves as they are.
use mathlib.Core.Bool.{true≢false}
use dankgo.Prelude.{
  ℕ, ◌||◌, Bool, true, false, Option, none, some, List, [], ◌∷◌, ◌++◌, refl, sym, ◌≡◌, ◌==◌,
  if◌then◌else◌, Bool-cases, inl, inr, All, append_assoc,
}
use dankgo.Prelude.Text.{Bytes}
use dankgo.Prelude.Members.{GoMap, contains}
use dankgo.Desktop.Groups.{trim_space, is_empty, first_is, index_byte, header_name}
use dankgo.Desktop.Render.{
  Entries, Rendering, flush_missing, header_line, write_key, managed_line, render_line,
}
use dankgo.Desktop.Render.Reading.{is_header}

-- Whether a line may hold no key.
abbrev pub has_no_key : Option ℕ → Bool
has_no_key none = true
has_no_key (some eq) = eq == 0

-- Whether the trimmed line, in the group of the entries, is none of the lines that are rewritten.
abbrev pub is_unrelated : Option Entries → Bytes → Bool
is_unrelated none trimmed = true
is_unrelated (some es) trimmed =
    (is_empty trimmed || first_is 35 trimmed) || has_no_key (index_byte 61 trimmed)

-- The headers, and the lines that are no key of one of the groups; the name is that of the current group.
unfoldable pub unrelated : GoMap Entries → Bytes → List Bytes → List Bytes
unfolding trim_space index_byte
unrelated managed name [] = []
unrelated managed name (line ∷ lines) =
    if is_header (trim_space line)
    then line ∷ unrelated managed (header_name (trim_space line)) lines
    else if is_unrelated (managed name) (trim_space line)
    then line ∷ unrelated managed name lines
    else unrelated managed name lines

abbrev pub kept_if : Bool → List Bytes → Bytes → List Bytes
kept_if b xs line = if b then xs ++ line ∷ [] else xs

pub kept_if-append :
    (b : Bool) (xs rest : List Bytes) (line : Bytes)
    → kept_if b xs line ++ rest ≡ xs ++ (if b then line ∷ rest else rest)
kept_if-append true xs rest line = append_assoc xs (line ∷ []) rest
kept_if-append false xs rest line = refl

pub write_key-current :
    (k : Bytes) (o : Option Bytes) (r : Rendering) → (write_key k o r).current ≡ r.current
write_key-current k none r = refl
write_key-current k (some v) r = elim (Bool-cases (contains (r.written r.current) k)) [
  | inl d ↦ rw d refl
  | inr d ↦ rw d refl
]

pub unrelated-All :
    (P : Bytes → Type 0) (managed : GoMap Entries) (name : Bytes) (lines : List Bytes)
    → All P lines
    → All P (unrelated managed name lines)
unfolding unrelated
unrelated-All P managed name [] f = tt
unrelated-All P managed name (line ∷ lines) (h, f) =
    elim (Bool-cases (is_header (trim_space line))) [
      | inl e ↦ rw e (h, unrelated-All P managed (header_name (trim_space line)) lines f)
      | inr e ↦ elim (Bool-cases (is_unrelated (managed name) (trim_space line))) [
        | inl u ↦ rw (e, u) (h, unrelated-All P managed name lines f)
        | inr u ↦ rw (e, u) (unrelated-All P managed name lines f)
      ]
    ]

if_true : (b : Bool) (x y : List Bytes) → b ≡ true → (if b then x else y) ≡ x
if_true true x y e = refl
if_true false x y e = absurd (true≢false (sym e))

if_false : (b : Bool) (x y : List Bytes) → b ≡ false → (if b then x else y) ≡ y
if_false true x y e = absurd (true≢false e)
if_false false x y e = refl

pub unrelated-header :
    (managed : GoMap Entries) (name line : Bytes) (lines : List Bytes)
    → is_header (trim_space line) ≡ true
    → unrelated managed name (line ∷ lines)
      ≡ line ∷ unrelated managed (header_name (trim_space line)) lines
unfolding unrelated
unrelated-header managed name line lines h = if_true (is_header (trim_space line)) _ _ h

pub unrelated-body :
    (managed : GoMap Entries) (name line : Bytes) (lines : List Bytes)
    → is_header (trim_space line) ≡ false
    → unrelated managed name (line ∷ lines) ≡ (
        if is_unrelated (managed name) (trim_space line)
        then line ∷ unrelated managed name lines
        else unrelated managed name lines)
unfolding unrelated
unrelated-body managed name line lines h = if_false (is_header (trim_space line)) _ _ h

pub render_line-header :
    (managed : GoMap Entries) (line : Bytes) (r : Rendering)
    → is_header (trim_space line) ≡ true
    → render_line managed line r ≡ header_line line (flush_missing managed r.current r)
unfolding render_line
render_line-header managed line r h = rw h refl

pub render_line-body :
    (managed : GoMap Entries) (line : Bytes) (r : Rendering)
    → is_header (trim_space line) ≡ false
    → render_line managed line r ≡ managed_line line (trim_space line) (managed r.current) r
unfolding render_line
render_line-body managed line r h = rw h refl
