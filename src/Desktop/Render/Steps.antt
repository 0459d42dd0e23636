-- ===== src/Desktop/Render/Steps.antt =====
-- desktop/mimeapps.go: each round of the loop of renderMimeapps keeps what is out and what was written in step.
use mathlib.Core.Bool.{true≢false}
use mathlib.Core.Option.{none-ne-some, some-injective}
use dankgo.Prelude.{
  ◌&&◌, Bool, true, false, Option, none, some, List, [], ◌∷◌, ◌++◌, ap, refl, sym, subst, ◌≡◌, ◌∙◌,
  arith, ◌==◌, Bool-cases, inl, inr, map, take, drop, take-append-drop,
}
use dankgo.Prelude.Text.{Bytes, eqb, eqb_iff}
use dankgo.Prelude.Members.{GoMap, contains}
use dankgo.Desktop.Groups.{Group, Parsing, trim_space, is_empty, parse_line, parse_lines}
use dankgo.Desktop.Render.{
  Entries, Rendering, line_of, lookup, missing, keys_of, mark, insert_at, inserted, append_line,
}
use dankgo.Desktop.Render.Fields.{IsField, AreFields, is_some}
use dankgo.Desktop.Render.Reading.{
  is_header, name_of, present_in, parse_lines-append, parse_line-skip, parse_line-IsKept,
}
use dankgo.Desktop.Render.Agrees.{Agrees, AreRead-AreViews, parse_lines-AreRead, so_far}
use dankgo.Desktop.Associations.{if_missing}

abbrev pub parse_start : Parsing
parse_start = record { groups = λ _. none; current = none }

-- What parseGroups has read behind the lines.
abbrev pub read_lines : List Bytes → Parsing
read_lines out = parse_lines out parse_start

pub read_lines-snoc :
    (out : List Bytes) (line : Bytes)
    → read_lines (out ++ line ∷ []) ≡ parse_line (trim_space line) (read_lines out)
read_lines-snoc out line = parse_lines-append out (line ∷ []) parse_start

pub and_true : (a b : Bool) → (a && b) ≡ true → (a ≡ true) × (b ≡ true)
and_true true b h = (refl, h)
and_true false b h = absurd (true≢false (sym h))

-- The lines behind the last one that is not blank.
parse_lines-drop : (out : List Bytes) (p : Parsing) → parse_lines (drop (insert_at out) out) p ≡ p
parse_lines-drop [] p = refl
parse_lines-drop (line ∷ lines) p =
    elim (Bool-cases (insert_at lines == 0 && is_empty (trim_space line))) [
      | inl h ↦
          let (z, e) = and_true (insert_at lines == 0) (is_empty (trim_space line)) h in
          let zero : insert_at lines ≡ 0 = ground arith in
          let skip = parse_line-skip (trim_space line) p (rw e refl) in
          rw (h, skip) (rw zero at (parse_lines-drop lines p))
      | inr h ↦ rw h (parse_lines-drop lines p)
    ]

pub read_lines-inserted :
    (out lines : List Bytes) → read_lines (inserted lines out) ≡ parse_lines lines (read_lines out)
read_lines-inserted out lines =
    let n = insert_at out in
    let front : read_lines (take n out) ≡ read_lines out =
      sym (parse_lines-drop out (read_lines (take n out)))
      ∙ (sym (parse_lines-append (take n out) (drop n out) parse_start)
          ∙ ap read_lines (take-append-drop n out)) in
    parse_lines-append (take n out) (lines ++ drop n out) parse_start
    ∙ (parse_lines-append lines (drop n out) (read_lines (take n out))
        ∙ (parse_lines-drop out (parse_lines lines (read_lines (take n out)))
            ∙ ap (parse_lines lines) front))

-- What is out agrees with what was written.
abbrev pub IsSound : GoMap Entries → Rendering → Type 0
IsSound managed r = Agrees managed (read_lines r.out) r

pub lookup-IsField :
    (es : Entries) (k v : Bytes) → AreFields es → lookup es k ≡ some v → IsField k v
lookup-IsField [] k v f e = absurd (none-ne-some _ e)
lookup-IsField ((j, w) ∷ es) k v (f, fs) e = elim (Bool-cases (eqb j k)) [
  | inl s ↦
      let same : w ≡ v = some-injective _ _ (rw s at e) in
      subst (λ x. IsField x v) ((eqb_iff j k).0 s) (subst (IsField j) same f)
  | inr s ↦ lookup-IsField es k v fs (rw s at e)
]

pub missing-AreFields :
    (done : List Bytes) (es : Entries) → AreFields es → AreFields (missing done es)
missing-AreFields done [] f = tt
missing-AreFields done ((k, v) ∷ es) (f, fs) = elim (Bool-cases (contains done k)) [
  | inl d ↦ rw d (missing-AreFields done es fs)
  | inr d ↦ rw d (f, missing-AreFields done es fs)
]

present-some :
    (name : Bytes) (o : Option Bytes) (gs : GoMap Group)
    → o ≡ some name
    → present_in o gs ≡ true
    → is_some (gs name) ≡ true
present-some name o gs e h = subst (λ x. present_in x gs ≡ true) e h

pub present-of :
    (name : Bytes) (o : Option Bytes) (gs : GoMap Group)
    → o ≡ some name
    → is_some (gs name) ≡ true
    → present_in o gs ≡ true
present-of name o gs e h = subst (λ x. present_in x gs ≡ true) (sym e) h

module _ (managed : GoMap Entries) (unnamed : managed [] ≡ none)
    (fields : (g : Bytes) (es : Entries) → managed g ≡ some es → AreFields es) where
  pub append_line-skipped :
      (line : Bytes) (r : Rendering)
      → IsSound managed r
      → parse_line (trim_space line) (read_lines r.out) ≡ read_lines r.out
      → IsSound managed (append_line line r)
  append_line-skipped line r a e =
      rw (read_lines-snoc r.out line, e)
        (record { current = a.current; present = a.present; views = a.views })

  not_named :
      (r : Rendering) (g : Bytes) (es : Entries) (name : Bytes)
      → name ≡ r.current
      → managed r.current ≡ none
      → managed g ≡ some es
      → eqb name g ≡ false
  not_named r g es name c n e = elim (Bool-cases (eqb name g)) [
    | inl s ↦ absurd (none-ne-some _ (sym n ∙ (ap managed (sym c ∙ (eqb_iff name g).0 s) ∙ e)))
    | inr s ↦ s
  ]

  pub append_line-unmanaged :
      (line : Bytes) (r : Rendering)
      → IsSound managed r
      → is_header (trim_space line) ≡ false
      → managed r.current ≡ none
      → IsSound managed (append_line line r)
  append_line-unmanaged line r a h n =
      let p = read_lines r.out in
      let k = parse_line-IsKept (trim_space line) p h in
      rw (read_lines-snoc r.out line) (record {
        current = ap name_of k.current ∙ a.current;
        present = k.present a.present;
        views = λ g es e j.
            k.view_kept g j (not_named r g es (name_of p.current) a.current n e) ∙ a.views g es e j;
      })

  -- The group of the current name is there, where it is managed.
  pub current-some :
      (r : Rendering) (es : Entries) (o : Option Bytes)
      → name_of o ≡ r.current
      → managed r.current ≡ some es
      → o ≡ some r.current
  current-some r es none c e = absurd (none-ne-some _ (sym unnamed ∙ (ap managed c ∙ e)))
  current-some r es (some name) c e = ap some c

  -- Entries that are written into the current group.
  pub write_entries :
      (r : Rendering) (es new : Entries) (out : List Bytes)
      → IsSound managed r
      → managed r.current ≡ some es
      → AreFields new
      → read_lines out ≡ parse_lines (map line_of new) (read_lines r.out)
      → ((j : Bytes)
          → if_missing (so_far (r.written r.current) es j) (lookup new j)
            ≡ so_far (keys_of new ++ r.written r.current) es j)
      → IsSound managed (record r { out = out; written = mark r.current (keys_of new) r.written })
  write_entries r es new out a e f o h =
      let p = read_lines r.out in
      let c = current-some r es p.current a.current e in
      let present = present-some r.current p.current p.groups c a.present in
      let q = parse_lines-AreRead r.current new p f c present in
      rw o (record {
        current = ap name_of q.current;
        present = present-of r.current _ _ q.current q.present;
        views =
            AreRead-AreViews managed r.current es new p (parse_lines (map line_of new) p) r.written
              a.views q e h;
      })
