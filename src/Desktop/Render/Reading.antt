-- ===== src/Desktop/Render/Reading.antt =====
-- desktop/mimeapps.go: what one line of a file does to the groups that parseGroups reads.
use dankgo.Prelude.{
  ℕ, suc, ◌&&◌, ◌||◌, Bool, true, false, Option, none, some, List, [], ◌∷◌, ◌++◌, ap, refl, sym,
  ◌≡◌, ◌∙◌, arith, ◌==◌, if◌then◌else◌, Bool-cases, inl, inr, take, drop,
}
use dankgo.Prelude.Text.{Bytes, eqb, eqb_iff, eqb_refl}
use dankgo.Prelude.Members.{GoMap}
use dankgo.Desktop.Groups.{
  Group, Parsing, trim_space, is_empty, first_is, last_is, index_byte, base_key, parse_line,
  parse_lines, in_group, in_current, keyed, named, header_name,
}
use dankgo.Desktop.Associations.{key_of}
use dankgo.Desktop.Render.Fields.{view, is_some}

abbrev pub is_header : Bytes → Bool
is_header line = first_is 91 line && last_is 93 line

abbrev pub name_of : Option Bytes → Bytes
name_of none = []
name_of (some name) = name

abbrev pub present_in : Option Bytes → GoMap Group → Bool
present_in none gs = true
present_in (some name) gs = is_some (gs name)

pub parse_lines-append :
    (a b : List Bytes) (p : Parsing) → parse_lines (a ++ b) p ≡ parse_lines b (parse_lines a p)
parse_lines-append [] b p = refl
parse_lines-append (l ∷ a) b p = parse_lines-append a b (parse_line (trim_space l) p)

-- A line that is no header is at most a key.
parse_line-body :
    (line : Bytes) (p : Parsing)
    → is_header line ≡ false
    → parse_line line p
      ≡ (if is_empty line || first_is 35 line then p else in_current line p.current p)
unfolding parse_line
parse_line-body line p h = rw h refl

pub parse_line-skip :
    (line : Bytes) (p : Parsing)
    → (is_empty line || first_is 35 line) ≡ true
    → parse_line line p ≡ p
unfolding parse_line
parse_line-skip line p h = rw h refl

-- What a key leaves alone.
pub record IsKept (p q : Parsing) : Type 0 where
  pub current : q.current ≡ p.current
  pub present : present_in p.current p.groups ≡ true → present_in q.current q.groups ≡ true
  pub view_kept : (g j : Bytes) → eqb (name_of p.current) g ≡ false → view q g j ≡ view p g j

kept : (p : Parsing) → IsKept p p
kept p = record { current = refl; present = λ h. h; view_kept = λ g j h. refl }

pub in_group-present :
    (k v name : Bytes) (o : Option Group) (gs : GoMap Group)
    → is_some (gs name) ≡ true
    → is_some (in_group name k v o gs name) ≡ true
in_group-present k v name none gs h = h
in_group-present k v name (some m) gs h = rw (eqb_refl name) refl

in_group-other :
    (k v name g j : Bytes) (o : Option Group) (gs : GoMap Group)
    → eqb name g ≡ false
    → key_of (in_group name k v o gs g) j ≡ key_of (gs g) j
in_group-other k v name g j none gs h = refl
in_group-other k v name g j (some m) gs h = rw h refl

in_group-IsKept :
    (k v name : Bytes) (p : Parsing)
    → p.current ≡ some name
    → IsKept p (record p { groups = in_group name k v (p.groups name) p.groups })
in_group-IsKept k v name p c = record {
  current = refl;
  present = λ h. rw c (in_group-present k v name (p.groups name) p.groups (rw c at h));
  view_kept = λ g j h. in_group-other k v name g j (p.groups name) p.groups (rw c at h);
}

keyed-IsKept :
    (name line : Bytes) (o : Option ℕ) (p : Parsing)
    → p.current ≡ some name
    → IsKept p (keyed name line o p)
keyed-IsKept name line none p c = kept p
keyed-IsKept name line (some eq) p c = elim (Bool-cases (eq == 0)) [
  | inl h ↦ rw h (kept p)
  | inr h ↦ rw h (
      in_group-IsKept (base_key (trim_space (take eq line))) (trim_space (drop (suc eq) line)) name
        p c)
]

in_current-IsKept :
    (line : Bytes) (o : Option Bytes) (p : Parsing) → p.current ≡ o → IsKept p (in_current line o p)
in_current-IsKept line none p c = kept p
in_current-IsKept line (some name) p c = keyed-IsKept name line (index_byte 61 line) p c

pub parse_line-IsKept :
    (line : Bytes) (p : Parsing) → is_header line ≡ false → IsKept p (parse_line line p)
parse_line-IsKept line p h =
    rw (parse_line-body line p h) (elim (Bool-cases (is_empty line || first_is 35 line)) [
      | inl s ↦ rw s (kept p)
      | inr s ↦ rw s (in_current-IsKept line p.current p refl)
    ])

in_current-none :
    (line : Bytes) (o : Option Bytes) (p : Parsing)
    → index_byte 61 line ≡ none
    → in_current line o p ≡ p
in_current-none line none p h = refl
in_current-none line (some name) p h = rw h refl

in_current-zero :
    (line : Bytes) (o : Option Bytes) (p : Parsing) (eq : ℕ)
    → index_byte 61 line ≡ some eq
    → (eq == 0) ≡ true
    → in_current line o p ≡ p
in_current-zero line none p eq h z = refl
in_current-zero line (some name) p eq h z = rw (h, z) refl

if_same : (b : Bool) (p q : Parsing) → q ≡ p → (if b then p else q) ≡ p
if_same true p q e = refl
if_same false p q e = e

-- Lines that hold no key.
pub parse_line-no_equals :
    (line : Bytes) (p : Parsing)
    → is_header line ≡ false
    → index_byte 61 line ≡ none
    → parse_line line p ≡ p
parse_line-no_equals line p h e =
    parse_line-body line p h
    ∙ if_same (is_empty line || first_is 35 line) p _ (in_current-none line p.current p e)

pub parse_line-no_key :
    (line : Bytes) (p : Parsing) (eq : ℕ)
    → is_header line ≡ false
    → index_byte 61 line ≡ some eq
    → (eq == 0) ≡ true
    → parse_line line p ≡ p
parse_line-no_key line p eq h e z =
    parse_line-body line p h
    ∙ if_same (is_empty line || first_is 35 line) p _ (in_current-zero line p.current p eq e z)

header_not_skipped :
    (line : Bytes) → is_header line ≡ true → (is_empty line || first_is 35 line) ≡ false
header_not_skipped [] h = cc
header_not_skipped (c ∷ cs) h = ground arith

named-view :
    (name g j : Bytes) (o : Option Group) (gs : GoMap Group)
    → gs name ≡ o
    → key_of (named name o gs g) j ≡ key_of (gs g) j
named-view name g j (some m) gs e = refl
named-view name g j none gs e = elim (Bool-cases (eqb name g)) [
  | inl s ↦ rw (s, ap gs (sym ((eqb_iff name g).0 s)) ∙ e) refl
  | inr s ↦ rw s refl
]

named-present :
    (name : Bytes) (o : Option Group) (gs : GoMap Group)
    → gs name ≡ o
    → is_some (named name o gs name) ≡ true
named-present name none gs e = rw (eqb_refl name) refl
named-present name (some m) gs e = rw e refl

-- A header makes its group current, and changes no key.
pub record IsEntered (name : Bytes) (p q : Parsing) : Type 0 where
  pub current : q.current ≡ some name
  pub present : is_some (q.groups name) ≡ true
  pub view_kept : (g j : Bytes) → view q g j ≡ view p g j

pub parse_line-IsEntered :
    (line : Bytes) (p : Parsing)
    → is_header line ≡ true
    → IsEntered (header_name line) p (parse_line line p)
unfolding parse_line
parse_line-IsEntered line p h =
    rw (header_not_skipped line h, h)
      (record {
        current = refl;
        present = named-present (header_name line) (p.groups (header_name line)) p.groups refl;
        view_kept =
            λ g j. named-view (header_name line) g j (p.groups (header_name line)) p.groups refl;
      })
