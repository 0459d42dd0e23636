-- ===== src/Desktop/Render/Text.antt =====
-- desktop/mimeapps.go: the lines that are written are the lines that are read.
use dankgo.Prelude.{
  ℕ, ◌&&◌, false, List, [], ◌∷◌, ◌++◌, ap, refl, ◌≡◌, ◌∙◌, arith, ◌==◌, Bool-cases, inl, inr, map,
  All,
}
use dankgo.Prelude.Text.{Bytes}
use dankgo.Prelude.Split.{split, push, join, join_more, IsFree, split_middle, split-join_more}
use dankgo.Desktop.Groups.{
  Parsing, is_empty, skip_spaces, drop_spaces, drop_cr, trim_space, but_last_empty, scan_lines,
  parse_line, parse_lines, parse_groups,
}
use dankgo.Desktop.Render.{text_of}
use dankgo.Desktop.Render.Steps.{parse_start, read_lines}

drop_spaces-drop_cr : (s : Bytes) → drop_spaces (drop_cr s) ≡ drop_spaces s
drop_spaces-drop_cr [] = refl
drop_spaces-drop_cr (c ∷ []) = ground arith
drop_spaces-drop_cr (c ∷ d ∷ s) = ground (arith, drop_spaces-drop_cr (d ∷ s))

skip_spaces-drop_cr :
    (s : Bytes) → drop_spaces (skip_spaces (drop_cr s)) ≡ drop_spaces (skip_spaces s)
skip_spaces-drop_cr [] = refl
skip_spaces-drop_cr (c ∷ []) = ground arith
skip_spaces-drop_cr (c ∷ d ∷ s) =
    ground (arith, skip_spaces-drop_cr (d ∷ s), drop_spaces-drop_cr (d ∷ s))

trim_space-drop_cr : (s : Bytes) → trim_space (drop_cr s) ≡ trim_space s
unfolding trim_space
trim_space-drop_cr s = skip_spaces-drop_cr s

parse_lines-drop_cr :
    (lines : List Bytes) (p : Parsing) → parse_lines (map drop_cr lines) p ≡ parse_lines lines p
parse_lines-drop_cr [] p = refl
parse_lines-drop_cr (l ∷ lines) p =
    ap (λ t. parse_lines (map drop_cr lines) (parse_line t p)) (trim_space-drop_cr l)
    ∙ parse_lines-drop_cr lines (parse_line (trim_space l) p)

but_last_empty-snoc : (lines : List Bytes) → but_last_empty (lines ++ [] ∷ []) ≡ lines
but_last_empty-snoc [] = refl
but_last_empty-snoc (l ∷ []) = refl
but_last_empty-snoc (l ∷ m ∷ lines) = ap (λ x. l ∷ x) (but_last_empty-snoc (m ∷ lines))

split-text_of :
    (l : Bytes) (lines : List Bytes)
    → All (IsFree 10) (l ∷ lines)
    → split 10 (text_of (l ∷ lines)) ≡ (l ∷ lines) ++ [] ∷ []
unfolding join split
split-text_of l lines (f, fs) =
    split_middle 10 (join_more 10 l lines) []
    ∙ ap (λ x. x ++ [] ∷ []) (split-join_more 10 l lines f fs)

scan_lines-text_of :
    (lines : List Bytes) → All (IsFree 10) lines → scan_lines (text_of lines) ≡ map drop_cr lines
unfolding scan_lines split
scan_lines-text_of [] f = refl
scan_lines-text_of (l ∷ lines) f =
    ap (λ ls. map drop_cr (but_last_empty ls)) (split-text_of l lines f)
    ∙ ap (map drop_cr) (but_last_empty-snoc (l ∷ lines))

-- The groups of a text are those of its lines, which hold no line feed.
pub parse_groups-text_of :
    (lines : List Bytes)
    → All (IsFree 10) lines
    → parse_groups (text_of lines) ≡ (read_lines lines).groups
unfolding parse_groups
parse_groups-text_of lines f =
    ap (λ ls. (read_lines ls).groups) (scan_lines-text_of lines f)
    ∙ ap (λ p. p.groups) (parse_lines-drop_cr lines parse_start)

push-IsFree :
    (sep c : ℕ) (ps : List Bytes)
    → (c == sep) ≡ false
    → All (IsFree sep) ps
    → All (IsFree sep) (push c ps)
push-IsFree sep c [] h f = ((h, tt), tt)
push-IsFree sep c (p ∷ ps) h (f, fs) = ((h, f), fs)

pub split-IsFree : (sep : ℕ) (s : Bytes) → All (IsFree sep) (split sep s)
unfolding split
split-IsFree sep [] = (tt, tt)
split-IsFree sep (c ∷ s) = elim (Bool-cases (c == sep)) [
  | inl h ↦ rw h (tt, split-IsFree sep s)
  | inr h ↦ rw h (push-IsFree sep c (split sep s) h (split-IsFree sep s))
]

drop_cr-IsFree : (sep : ℕ) (s : Bytes) → IsFree sep s → IsFree sep (drop_cr s)
drop_cr-IsFree sep [] f = tt
drop_cr-IsFree sep (c ∷ s) (h, f) = elim (Bool-cases (c == 13 && is_empty s)) [
  | inl e ↦ rw e tt
  | inr e ↦ rw e (h, drop_cr-IsFree sep s f)
]

lines-IsFree :
    (ps : List Bytes) → All (IsFree 10) ps → All (IsFree 10) (map drop_cr (but_last_empty ps))
lines-IsFree [] f = tt
lines-IsFree (p ∷ []) (f, fs) = elim (Bool-cases (is_empty p)) [
  | inl e ↦ rw e tt
  | inr e ↦ rw e (drop_cr-IsFree 10 p f, tt)
]
lines-IsFree (p ∷ q ∷ ps) (f, fs) = (drop_cr-IsFree 10 p f, lines-IsFree (q ∷ ps) fs)

pub scan_lines-IsFree : (text : Bytes) → All (IsFree 10) (scan_lines text)
unfolding scan_lines
scan_lines-IsFree text = lines-IsFree (split 10 text) (split-IsFree 10 text)
