-- ===== src/Desktop/Render/Verbatim.antt =====
-- desktop/mimeapps.go: renderMimeapps keeps the comments, the blank lines and the unrelated groups, in order, and
-- puts no line beside them but those of the three groups.
use dankgo.Prelude.{
  ℕ, ◌||◌, Bool, true, Option, none, some, List, [], ◌∷◌, ◌++◌, ap, refl, sym, subst, ◌≡◌, ◌∙◌,
  ◌==◌, Bool-cases, inl, inr, map, take, All, append_assoc, append-nil,
}
use dankgo.Prelude.Text.{Bytes, codes}
use dankgo.Prelude.Members.{GoMap, contains}
use dankgo.Desktop.Groups.{trim_space, is_empty, first_is, index_byte, header_name, scan_lines}
use dankgo.Desktop.Render.{
  Entries, Rendering, line_of, lookup, missing, flushed, flush_group, flush_missing, append_line,
  header_line, write_key, key_line, managed_line, render_line, render_lines, separator,
  group_header, add_pending, add_entries, add_group, render_groups, render_start, rendered,
}
use dankgo.Desktop.Render.Reading.{is_header}
use dankgo.Desktop.Render.Extension.{
  IsExtension, kept_last, added_last, inserted-IsExtension, IsExtension-All,
}
use dankgo.Desktop.Render.Every.{
  AreWritten, missing-AreWritten, lookup-AreWritten, separator-All, All-append,
}
use dankgo.Desktop.Render.Unrelated.{
  has_no_key, is_unrelated, unrelated, kept_if, kept_if-append, write_key-current, unrelated-All,
  unrelated-header, unrelated-body, render_line-header, render_line-body,
}

module _ (P : Bytes → Type 0) (managed : GoMap Entries)
    (written : (g : Bytes) (es : Entries) → managed g ≡ some es → AreWritten P es) where
  write_key-IsExtension :
      (k : Bytes) (o : Option Bytes) (es : Entries) (r : Rendering) (xs : List Bytes)
      → lookup es k ≡ o
      → AreWritten P es
      → IsExtension P xs r.out
      → IsExtension P xs (write_key k o r).out
  write_key-IsExtension k none es r xs e w x = x
  write_key-IsExtension k (some v) es r xs e w x =
      elim (Bool-cases (contains (r.written r.current) k)) [
        | inl d ↦ rw d x
        | inr d ↦
            rw d
              (added_last P xs r.out (line_of (k, v) ∷ []) (lookup-AreWritten P es k v w e, tt) x)
      ]

  -- What a line that is no header does.
  record IsBody (line : Bytes) (b : Bool) (xs : List Bytes) (r r' : Rendering) : Type 0 where
    out : IsExtension P (kept_if b xs line) r'.out
    current : r'.current ≡ r.current

  appended :
      (line : Bytes) (b : Bool) (xs : List Bytes) (r : Rendering)
      → b ≡ true
      → IsExtension P xs r.out
      → IsBody line b xs r (append_line line r)
  appended line b xs r e x = rw e (record { out = kept_last P xs r.out line x; current = refl })

  key_line-IsBody :
      (line : Bytes) (es : Entries) (o : Option ℕ) (xs : List Bytes) (r : Rendering)
      → AreWritten P es
      → IsExtension P xs r.out
      → IsBody line (has_no_key o) xs r (key_line line (trim_space line) es o r)
  key_line-IsBody line es none xs r w x = appended line true xs r refl x
  key_line-IsBody line es (some eq) xs r w x = elim (Bool-cases (eq == 0)) [
    | inl z ↦ rw z (appended line true xs r refl x)
    | inr z ↦
        let key = trim_space (take eq (trim_space line)) in
        rw z (record {
          out = write_key-IsExtension key (lookup es key) es r xs refl w x;
          current = write_key-current key (lookup es key) r;
        })
  ]

  managed_line-IsBody :
      (line : Bytes) (o : Option Entries) (xs : List Bytes) (r : Rendering)
      → managed r.current ≡ o
      → IsExtension P xs r.out
      → IsBody line
          (is_unrelated o (trim_space line))
          xs
          r
          (managed_line line (trim_space line) o r)
  managed_line-IsBody line none xs r e x = appended line true xs r refl x
  managed_line-IsBody line (some es) xs r e x =
      elim (Bool-cases (is_empty (trim_space line) || first_is 35 (trim_space line))) [
        | inl s ↦ rw s (appended line true xs r refl x)
        | inr s ↦ rw s (
            key_line-IsBody line es (index_byte 61 (trim_space line)) xs r (written r.current es e)
              x)
      ]

  flushed-IsExtension :
      (g : Bytes) (es : Entries) (r : Rendering) (xs : List Bytes)
      → AreWritten P es
      → IsExtension P xs r.out
      → IsExtension P xs (flushed g es r).out
  flushed-IsExtension g [] r xs w x = x
  flushed-IsExtension g (e ∷ es) r xs w x =
      inserted-IsExtension P xs r.out (map line_of (e ∷ es)) w x

  flush_group-IsExtension :
      (g : Bytes) (o : Option Entries) (r : Rendering) (xs : List Bytes)
      → managed g ≡ o
      → IsExtension P xs r.out
      → IsExtension P xs (flush_group g o r).out
  flush_group-IsExtension g none r xs e x = x
  flush_group-IsExtension g (some es) r xs e x =
      flushed-IsExtension g (missing (r.written g) es) r xs
        (missing-AreWritten P (r.written g) es (written g es e)) x

  flush_missing-IsExtension :
      (g : Bytes) (r : Rendering) (xs : List Bytes)
      → IsExtension P xs r.out
      → IsExtension P xs (flush_missing managed g r).out
  unfolding flush_missing
  flush_missing-IsExtension g r xs x = flush_group-IsExtension g (managed g) r xs refl x

  moved :
      (managed : GoMap Entries) (line : Bytes) (lines xs : List Bytes) (r q : Rendering)
      (front rest : List Bytes)
      → render_line managed line r ≡ q
      → front ++ rest ≡ xs ++ unrelated managed r.current (line ∷ lines)
      → IsExtension P (front ++ rest) (render_lines managed lines q).out
      → IsExtension P
          (xs ++ unrelated managed r.current (line ∷ lines))
          (render_lines managed (line ∷ lines) r).out
  moved managed line lines xs r q front rest e s x =
      subst (λ y. IsExtension P y (render_lines managed lines (render_line managed line r)).out) s
        (subst (λ y. IsExtension P (front ++ rest) (render_lines managed lines y).out) (sym e) x)

  render_lines-IsExtension :
      (lines xs : List Bytes) (r : Rendering)
      → IsExtension P xs r.out
      → IsExtension P (xs ++ unrelated managed r.current lines) (render_lines managed lines r).out
  unfolding unrelated
  render_lines-IsExtension [] xs r x = subst (λ y. IsExtension P y r.out) (sym (append-nil xs)) x
  render_lines-IsExtension (line ∷ lines) xs r x = elim (Bool-cases (is_header (trim_space line))) [
    | inl h ↦
        let r1 = flush_missing managed r.current r in
        let rest = unrelated managed (header_name (trim_space line)) lines in
        moved managed line lines xs r (header_line line r1) (xs ++ line ∷ []) rest
          (render_line-header managed line r h)
          (append_assoc xs (line ∷ []) rest
            ∙ ap (λ z. xs ++ z) (sym (unrelated-header managed r.current line lines h)))
          (render_lines-IsExtension lines (xs ++ line ∷ []) (header_line line r1)
            (kept_last P xs r1.out line (flush_missing-IsExtension r.current r xs x)))
    | inr h ↦
        let b = is_unrelated (managed r.current) (trim_space line) in
        let rest = unrelated managed r.current lines in
        let r1 = managed_line line (trim_space line) (managed r.current) r in
        let m = managed_line-IsBody line (managed r.current) xs r refl x in
        moved managed line lines xs r r1 (kept_if b xs line) rest
          (render_line-body managed line r h)
          (kept_if-append b xs rest line
            ∙ ap (λ z. xs ++ z) (sym (unrelated-body managed r.current line lines h)))
          (subst
            (λ c.
              IsExtension P (kept_if b xs line ++ unrelated managed c lines)
                (render_lines managed lines r1).out)
            m.current (render_lines-IsExtension lines (kept_if b xs line) r1 m.out))
  ]

  add_pending-IsExtension :
      (g : Bytes) (es : Entries) (r : Rendering) (xs : List Bytes)
      → P []
      → P (group_header g)
      → AreWritten P es
      → IsExtension P xs r.out
      → IsExtension P xs (add_pending g es r).out
  add_pending-IsExtension g [] r xs b h w x = x
  add_pending-IsExtension g (e ∷ es) r xs b h w x =
      added_last P xs r.out (separator r.out ++ group_header g ∷ map line_of (e ∷ es))
        (All-append P (separator r.out) (group_header g ∷ map line_of (e ∷ es))
          (separator-All P r.out b) (h, w))
        x

  add_entries-IsExtension :
      (g : Bytes) (o : Option Entries) (r : Rendering) (xs : List Bytes)
      → managed g ≡ o
      → P []
      → P (group_header g)
      → IsExtension P xs r.out
      → IsExtension P xs (add_entries g o r).out
  add_entries-IsExtension g none r xs e b h x = x
  add_entries-IsExtension g (some es) r xs e b h x =
      add_pending-IsExtension g (missing (r.written g) es) r xs b h
        (missing-AreWritten P (r.written g) es (written g es e)) x

  pub rendered-IsExtension :
      (original : Bytes)
      → P []
      → P (group_header (codes "Default Applications"))
      → P (group_header (codes "Added Associations"))
      → P (group_header (codes "Removed Associations"))
      → IsExtension P (unrelated managed [] (scan_lines original)) (rendered managed original)
  unfolding rendered render_groups add_group render_start
  rendered-IsExtension original b hd ha hr =
      let lines = scan_lines original in
      let xs = unrelated managed [] lines in
      let r0 = render_lines managed lines render_start in
      let r1 = flush_missing managed r0.current r0 in
      let dn = codes "Default Applications" in
      let an = codes "Added Associations" in
      let rn = codes "Removed Associations" in
      let r2 = add_group managed dn r1 in
      let r3 = add_group managed an r2 in
      add_entries-IsExtension rn (managed rn) r3 xs refl b hr (
        add_entries-IsExtension an (managed an) r2 xs refl b ha (
          add_entries-IsExtension dn (managed dn) r1 xs refl b hd (
            flush_missing-IsExtension r0.current r0 xs
              (render_lines-IsExtension lines [] render_start refl))))

  pub rendered-All :
      (original : Bytes)
      → P []
      → P (group_header (codes "Default Applications"))
      → P (group_header (codes "Added Associations"))
      → P (group_header (codes "Removed Associations"))
      → All P (scan_lines original)
      → All P (rendered managed original)
  rendered-All original b hd ha hr s =
      IsExtension-All P (unrelated managed [] (scan_lines original)) (rendered managed original)
        (unrelated-All P managed [] (scan_lines original) s)
        (rendered-IsExtension original b hd ha hr)
