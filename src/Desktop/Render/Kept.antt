-- ===== src/Desktop/Render/Kept.antt =====
-- desktop/mimeapps.go: what renderMimeapps keeps and what it adds.
use mathlib.Core.Option.{none-ne-some, some-injective}
use dankgo.Prelude.{
  ◌&&◌, ◌||◌, Bool, true, false, some, List, [], ◌∷◌, refl, sym, ◌≡◌, Bool-cases, inl, inr, map,
}
use dankgo.Prelude.Text.{Bytes, codes, eqb, eqb_refl}
use dankgo.Prelude.Members.{GoMap, contains}
use dankgo.Desktop.Groups.{scan_lines}
use dankgo.Desktop.Associations.{MimeAssociations}
use dankgo.Desktop.Render.{
  Entries, Keys, line_of, group_header, group_entries, managed_groups, rendered, text_of,
  render_mimeapps, are_safe, clone, flatten,
}
use dankgo.Desktop.Render.Every.{AreWritten}
use dankgo.Desktop.Render.Extension.{IsExtension}
use dankgo.Desktop.Render.Unrelated.{unrelated}
use dankgo.Desktop.Render.Verbatim.{rendered-IsExtension}

-- The lines that renderMimeapps writes by itself.
pub data IsNew (managed : GoMap Entries) (line : Bytes) : Type 0 where
  entry_line :
      (g : Bytes) (es : Entries)
      → managed g ≡ some es
      → contains (map line_of es) line ≡ true
      → IsNew managed line
  header :
      (g : Bytes) (es : Entries) → managed g ≡ some es → line ≡ group_header g → IsNew managed line
  blank : line ≡ [] → IsNew managed line

entries-IsNew :
    (managed : GoMap Entries) (g : Bytes) (es all : Entries)
    → managed g ≡ some all
    → ((l : Bytes) → contains (map line_of es) l ≡ true → contains (map line_of all) l ≡ true)
    → AreWritten (IsNew managed) es
unfolding contains
entries-IsNew managed g [] all m h = tt
entries-IsNew managed g ((k, v) ∷ es) all m h = (
  entry_line g all m (h (line_of (k, v)) (rw (eqb_refl (line_of (k, v))) refl)),
  entries-IsNew managed g es all m (λ l c. h l (rw c (or_true (eqb (line_of (k, v)) l)))),
)
  where
    or_true : (b : Bool) → (b || true) ≡ true
    or_true true = refl
    or_true false = refl

-- The text that renderMimeapps gives keeps, in order and as the scanner reads them, the headers, blank lines,
-- comments, lines without a key and lines of other groups; the lines beside them are entries of the three
-- groups, headers of these, and empty lines.
pub render_mimeapps-IsExtension :
    (original : Bytes) (keys : Keys) (assoc : MimeAssociations) (text : Bytes)
    → render_mimeapps original keys assoc ≡ some text
    → (lines : List Bytes) × (text ≡ text_of lines)
      × IsExtension
          (IsNew (group_entries keys assoc))
          (unrelated (group_entries keys assoc) [] (scan_lines original))
          lines
unfolding render_mimeapps managed_groups eqb
render_mimeapps-IsExtension original keys assoc text e =
    let d = are_safe (clone assoc.defaults keys.defaults) in
    let a = are_safe (flatten assoc.added keys.added) in
    let m = are_safe (flatten assoc.removed keys.removed) in
    let managed = group_entries keys assoc in
    elim (Bool-cases (d && (a && m))) [
      | inl s ↦ (
        rendered managed original,
        sym (some-injective _ _ (rw s at e)),
        rendered-IsExtension (IsNew managed) managed
            (λ g es n. entries-IsNew managed g es es n (λ l c. c)) original (blank refl)
            (header (codes "Default Applications") _ refl refl)
            (header (codes "Added Associations") _ refl refl)
            (header (codes "Removed Associations") _ refl refl),
      )
      | inr s ↦ absurd (none-ne-some _ (rw s at e))
    ]
