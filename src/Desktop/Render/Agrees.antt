-- ===== src/Desktop/Render/Agrees.antt =====
-- desktop/mimeapps.go: while renderMimeapps works, parseGroups reads from the lines that are out what has been
-- written, and no other key of a managed group.
use mathlib.Core.Bool.{true≢false}
use mathlib.Core.Option.{some-injective}
use dankgo.Prelude.{
  ◌&&◌, ◌||◌, Bool, true, false, Option, none, some, List, [], ◌∷◌, ◌++◌, ap, refl, sym, subst, ◌≡◌,
  ◌∙◌, if◌then◌else◌, Bool-cases, inl, inr, map,
}
use dankgo.Prelude.Text.{Bytes, eqb, eqb_iff}
use dankgo.Prelude.Members.{GoMap, contains, contains-append}
use dankgo.Desktop.Groups.{Parsing, trim_space, parse_line, parse_lines}
use dankgo.Desktop.Associations.{if_missing}
use dankgo.Desktop.Render.{Entries, Rendering, line_of, lookup, missing, keys_of, mark}
use dankgo.Desktop.Render.Fields.{AreFields, view, is_some, view-line_of, parse_line-line_of}
use dankgo.Desktop.Render.Reading.{name_of, present_in, in_group-present}

pub record AreRead (name : Bytes) (es : Entries) (p q : Parsing) : Type 0 where
  pub current : q.current ≡ some name
  pub present : is_some (q.groups name) ≡ true
  pub views :
      (g j : Bytes)
      → view q g j ≡ (if eqb name g then if_missing (view p g j) (lookup es j) else view p g j)

if_missing-none : (b : Bool) (o : Option Bytes) → o ≡ (if b then if_missing o none else o)
if_missing-none true none = refl
if_missing-none true (some x) = refl
if_missing-none false o = refl

then_rest :
    (a b : Bool) (o rest : Option Bytes) (v : Bytes)
    → (if a
        then if_missing (if a && b then if_missing o (some v) else o) rest
        else (if a && b then if_missing o (some v) else o))
      ≡ (if a then if_missing o (if b then some v else rest) else o)
then_rest true true none rest v = refl
then_rest true true (some x) rest v = refl
then_rest true false o rest v = refl
then_rest false b o rest v = refl

-- The lines of fields, in a group that is there.
pub parse_lines-AreRead :
    (name : Bytes) (es : Entries) (p : Parsing)
    → AreFields es
    → p.current ≡ some name
    → is_some (p.groups name) ≡ true
    → AreRead name es p (parse_lines (map line_of es) p)
parse_lines-AreRead name [] p f c e = record {
  current = c;
  present = e;
  views = λ g j. if_missing-none (eqb name g) (view p g j);
}
parse_lines-AreRead name ((k, v) ∷ es) p (f, fs) c e =
    let step = parse_line-line_of k v name p f c in
    let rest =
      parse_lines-AreRead name es (parse_line (trim_space (line_of (k, v))) p) fs (rw step c)
        (rw step (in_group-present k v name (p.groups name) p.groups e)) in
    record {
      current = rest.current;
      present = rest.present;
      views = λ g j.
          rest.views g j
          ∙ rw (view-line_of k v name g j p f c e)
              (then_rest (eqb name g) (eqb k j) (view p g j) (lookup es j) v);
    }

-- What is read at a key of which only the written entries are out.
abbrev pub so_far : List Bytes → Entries → Bytes → Option Bytes
so_far done es j = if contains done j then lookup es j else none

-- The groups are read as far as they are written.
abbrev pub AreViews : GoMap Entries → Parsing → (Bytes → List Bytes) → Type 0
AreViews managed p written =
    (g : Bytes) (es : Entries)
    → managed g ≡ some es
    → (j : Bytes) → view p g j ≡ so_far (written g) es j

pub record Agrees (managed : GoMap Entries) (p : Parsing) (r : Rendering) : Type 0 where
  pub current : name_of p.current ≡ r.current
  pub present : present_in p.current p.groups ≡ true
  pub views : AreViews managed p r.written

if_none : (b : Bool) → ◌≡◌ {A = Option Bytes} none (if b then none else none)
if_none true = refl
if_none false = refl

pub lookup-missing :
    (done : List Bytes) (es : Entries) (j : Bytes)
    → lookup (missing done es) j ≡ (if contains done j then none else lookup es j)
lookup-missing done [] j = if_none (contains done j)
lookup-missing done ((k, v) ∷ es) j =
    let ih = lookup-missing done es j in
    elim (Bool-cases (eqb k j)) [
      | inl s ↦
          let e = ap (contains done) ((eqb_iff k j).0 s) in
          elim (Bool-cases (contains done k)) [
            | inl d ↦ rw (d, s, sym e ∙ d) (rw (sym e ∙ d) at ih)
            | inr d ↦ rw (d, s, sym e ∙ d) refl
          ]
      | inr s ↦ elim (Bool-cases (contains done k)) [ inl d ↦ rw (d, s) ih | inr d ↦ rw (d, s) ih ]
    ]

pub lookup-absent :
    (es : Entries) (j : Bytes) → contains (keys_of es) j ≡ false → lookup es j ≡ none
unfolding contains
lookup-absent [] j h = refl
lookup-absent ((k, v) ∷ es) j h = elim (Bool-cases (eqb k j)) [
  | inl s ↦ absurd (true≢false (ap (λ b. b || contains (keys_of es) j) (sym s) ∙ h))
  | inr s ↦ rw s (lookup-absent es j (rw s at h))
]

or_false : (a b : Bool) → (a || b) ≡ false → (a ≡ false) × (b ≡ false)
or_false true b h = absurd (true≢false h)
or_false false b h = (refl, h)

-- Once the missing entries are written, every entry is read.
pub so_far-missing :
    (done : List Bytes) (es : Entries) (j : Bytes)
    → so_far (keys_of (missing done es) ++ done) es j ≡ lookup es j
so_far-missing done es j = elim (Bool-cases (contains (keys_of (missing done es) ++ done) j)) [
  | inl h ↦ rw h refl
  | inr h ↦
      let (new, old) =
        or_false (contains (keys_of (missing done es)) j) (contains done j)
          (sym (contains-append (keys_of (missing done es)) done j) ∙ h) in
      let absent = lookup-absent (missing done es) j new in
      rw h (sym absent ∙ (lookup-missing done es j ∙ rw old refl))
]

pub if_missing-so_far :
    (done : List Bytes) (es : Entries) (j : Bytes)
    → if_missing (so_far done es j) (lookup (missing done es) j) ≡ lookup es j
if_missing-so_far done es j =
    rw (lookup-missing done es j) (by_test (contains done j) (lookup es j))
  where
    by_test :
        (b : Bool) (o : Option Bytes)
        → if_missing (if b then o else none) (if b then none else o) ≡ o
    by_test true none = refl
    by_test true (some x) = refl
    by_test false o = refl

add_views :
    (b : Bool) (o l : Option Bytes) (done new : List Bytes) (es : Entries) (j : Bytes)
    → o ≡ so_far done es j
    → (b ≡ true → if_missing (so_far done es j) l ≡ so_far (new ++ done) es j)
    → (if b then if_missing o l else o) ≡ so_far (if b then new ++ done else done) es j
add_views true o l done new es j e h = rw e (h refl)
add_views false o l done new es j e h = e

-- Entries that are read into a group, and marked as written there.
pub AreRead-AreViews :
    (managed : GoMap Entries) (name : Bytes) (es new : Entries) (p q : Parsing)
    (written : Bytes → List Bytes)
    → AreViews managed p written
    → AreRead name new p q
    → managed name ≡ some es
    → ((j : Bytes)
        → if_missing (so_far (written name) es j) (lookup new j)
          ≡ so_far (keys_of new ++ written name) es j)
    → AreViews managed q (mark name (keys_of new) written)
AreRead-AreViews managed name es new p q written v a m h g es' e j =
    a.views g j
    ∙ add_views (eqb name g) (view p g j) (lookup new j) (written g) (keys_of new) es' j
        (v g es' e j)
        λ s.
          let n = (eqb_iff name g).0 s in
          let same : es ≡ es' = some-injective _ _ (sym m ∙ (ap managed n ∙ e)) in
          subst
            (λ x.
              if_missing (so_far (written x) es' j) (lookup new j)
              ≡ so_far (keys_of new ++ written x) es' j)
            n
            (subst
              (λ x.
                if_missing (so_far (written name) x j) (lookup new j)
                ≡ so_far (keys_of new ++ written name) x j)
              same (h j))

if_missing-none_right : (o : Option Bytes) → if_missing o none ≡ o
if_missing-none_right none = refl
if_missing-none_right (some x) = refl

-- One key that is written for the first time.
pub so_far-one :
    (done : List Bytes) (es : Entries) (k v j : Bytes)
    → lookup es k ≡ some v
    → if_missing (so_far done es j) (lookup ((k, v) ∷ []) j) ≡ so_far (k ∷ done) es j
unfolding contains
so_far-one done es k v j e = elim (Bool-cases (eqb k j)) [
  | inl s ↦ rw (s, sym (ap (lookup es) ((eqb_iff k j).0 s)) ∙ e) (by_test (contains done j))
  | inr s ↦ rw s (if_missing-none_right (so_far done es j))
]
  where
    by_test : (b : Bool) → if_missing (if b then some v else none) (some v) ≡ some v
    by_test true = refl
    by_test false = refl
