-- ===== src/Desktop/Render/Rounds.antt =====
-- desktop/mimeapps.go: the whole loop of renderMimeapps over the lines of the file, with flushMissing.
use dankgo.Prelude.{
  ℕ, ◌||◌, true, false, Option, none, some, List, [], ◌∷◌, ◌++◌, ap, refl, sym, subst, ◌≡◌, ◌∙◌,
  ◌==◌, Bool-cases, inl, inr, map, take,
}
use dankgo.Prelude.Text.{Bytes}
use dankgo.Prelude.Members.{GoMap, contains}
use dankgo.Desktop.Groups.{trim_space, is_empty, first_is, index_byte, header_name}
use dankgo.Desktop.Associations.{if_missing}
use dankgo.Desktop.Render.{
  Entries, Rendering, line_of, lookup, missing, keys_of, inserted, flushed, flush_group,
  flush_missing, header_line, write_key, key_line, managed_line, render_line, render_lines,
}
use dankgo.Desktop.Render.Fields.{AreFields}
use dankgo.Desktop.Render.Reading.{
  is_header, name_of, parse_line-skip, parse_line-no_equals, parse_line-no_key,
  parse_line-IsEntered,
}
use dankgo.Desktop.Render.Agrees.{so_far, so_far-one, so_far-missing, if_missing-so_far}
use dankgo.Desktop.Render.Steps.{
  IsSound, read_lines, read_lines-snoc, read_lines-inserted, lookup-IsField, missing-AreFields,
  append_line-skipped, append_line-unmanaged, write_entries, present-of,
}

module _ (managed : GoMap Entries) (unnamed : managed [] ≡ none)
    (fields : (g : Bytes) (es : Entries) → managed g ≡ some es → AreFields es) where
  write_key-IsSound :
      (key : Bytes) (o : Option Bytes) (es : Entries) (r : Rendering)
      → IsSound managed r
      → managed r.current ≡ some es
      → lookup es key ≡ o
      → IsSound managed (write_key key o r)
  write_key-IsSound key none es r a e l = a
  write_key-IsSound key (some v) es r a e l =
      elim (Bool-cases (contains (r.written r.current) key)) [
        | inl d ↦ rw d a
        | inr d ↦ rw d (
            write_entries managed unnamed fields r es ((key, v) ∷ [])
              (r.out ++ line_of (key, v) ∷ []) a e
              (lookup-IsField es key v (fields r.current es e) l, tt)
              (read_lines-snoc r.out (line_of (key, v)))
              (λ j. so_far-one (r.written r.current) es key v j l))
      ]

  key_line-IsSound :
      (line : Bytes) (es : Entries) (o : Option ℕ) (r : Rendering)
      → IsSound managed r
      → managed r.current ≡ some es
      → is_header (trim_space line) ≡ false
      → index_byte 61 (trim_space line) ≡ o
      → IsSound managed (key_line line (trim_space line) es o r)
  key_line-IsSound line es none r a e h i =
      append_line-skipped managed unnamed fields line r a
        (parse_line-no_equals (trim_space line) (read_lines r.out) h i)
  key_line-IsSound line es (some eq) r a e h i = elim (Bool-cases (eq == 0)) [
    | inl z ↦ rw z (
        append_line-skipped managed unnamed fields line r a
          (parse_line-no_key (trim_space line) (read_lines r.out) eq h i z))
    | inr z ↦ rw z (
        write_key-IsSound (trim_space (take eq (trim_space line)))
          (lookup es (trim_space (take eq (trim_space line)))) es r a e refl)
  ]

  managed_line-IsSound :
      (line : Bytes) (o : Option Entries) (r : Rendering)
      → IsSound managed r
      → managed r.current ≡ o
      → is_header (trim_space line) ≡ false
      → IsSound managed (managed_line line (trim_space line) o r)
  managed_line-IsSound line none r a e h = append_line-unmanaged managed unnamed fields line r a h e
  managed_line-IsSound line (some es) r a e h =
      elim (Bool-cases (is_empty (trim_space line) || first_is 35 (trim_space line))) [
        | inl s ↦ rw s (
            append_line-skipped managed unnamed fields line r a
              (parse_line-skip (trim_space line) (read_lines r.out) s))
        | inr s ↦ rw s (key_line-IsSound line es (index_byte 61 (trim_space line)) r a e h refl)
      ]

  flushed-IsSound :
      (es new : Entries) (r : Rendering)
      → IsSound managed r
      → managed r.current ≡ some es
      → missing (r.written r.current) es ≡ new
      → IsSound managed (flushed r.current new r)
  flushed-IsSound es [] r a e n = a
  flushed-IsSound es (x ∷ xs) r a e n =
      write_entries managed unnamed fields r es (x ∷ xs) (inserted (map line_of (x ∷ xs)) r.out) a e
        (subst AreFields n (missing-AreFields (r.written r.current) es (fields r.current es e)))
        (read_lines-inserted r.out (map line_of (x ∷ xs)))
        (λ j.
          subst (λ y. if_missing (so_far (r.written r.current) es j) (lookup y j) ≡ lookup es j) n
            (if_missing-so_far (r.written r.current) es j)
          ∙ sym (
              subst (λ y. so_far (keys_of y ++ r.written r.current) es j ≡ lookup es j) n
                (so_far-missing (r.written r.current) es j)))

  flush_group-IsSound :
      (o : Option Entries) (r : Rendering)
      → IsSound managed r
      → managed r.current ≡ o
      → IsSound managed (flush_group r.current o r)
  flush_group-IsSound none r a e = a
  flush_group-IsSound (some es) r a e =
      flushed-IsSound es (missing (r.written r.current) es) r a e refl

  pub flush_missing-IsSound :
      (r : Rendering) → IsSound managed r → IsSound managed (flush_missing managed r.current r)
  unfolding flush_missing
  flush_missing-IsSound r a = flush_group-IsSound (managed r.current) r a refl

  header_line-IsSound :
      (line : Bytes) (r : Rendering)
      → IsSound managed r
      → is_header (trim_space line) ≡ true
      → IsSound managed (header_line line r)
  header_line-IsSound line r a h =
      let q = parse_line-IsEntered (trim_space line) (read_lines r.out) h in
      rw (read_lines-snoc r.out line) (record {
        current = ap name_of q.current;
        present = present-of (header_name (trim_space line)) _ _ q.current q.present;
        views = λ g es e j. q.view_kept g j ∙ a.views g es e j;
      })

  render_line-IsSound :
      (line : Bytes) (r : Rendering)
      → IsSound managed r
      → IsSound managed (render_line managed line r)
  unfolding render_line
  render_line-IsSound line r a = elim (Bool-cases (is_header (trim_space line))) [
    | inl h ↦
        rw h (
          header_line-IsSound line (flush_missing managed r.current r) (flush_missing-IsSound r a)
            h)
    | inr h ↦ rw h (managed_line-IsSound line (managed r.current) r a refl h)
  ]

  pub render_lines-IsSound :
      (lines : List Bytes) (r : Rendering)
      → IsSound managed r
      → IsSound managed (render_lines managed lines r)
  render_lines-IsSound [] r a = a
  render_lines-IsSound (line ∷ lines) r a =
      render_lines-IsSound lines (render_line managed line r) (render_line-IsSound line r a)
