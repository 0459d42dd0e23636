-- ===== src/Trash/Info.antt =====
-- trash/trash.go: the text of a .trashinfo file, as writeTrashInfo writes and listOne and Restore read it.
use dankgo.Prelude.{◌≡◌, refl, ap, ◌∙◌, ◌++◌, Option, none, some, List, [], ◌∷◌, arith}
use dankgo.Prelude.Text.{Bytes, codes}
use dankgo.Prelude.Split.{split, split-append, split-free, IsFree, cut_prefix}
use dankgo.Trash.Escape.{
  path_encode, path_decode, AreBytes, path_decode-path_encode, path_encode-IsFree,
}

abbrev pub path_key : Bytes
path_key = codes "Path="

abbrev pub date_key : Bytes
date_key = codes "DeletionDate="

abbrev heading : Bytes
heading = codes "[Trash Info]"

-- The body that writeTrashInfo writes at the formatted time.
unfoldable pub info_text : Bytes → Bytes → Bytes
unfolding path_encode
info_text stored when =
    heading ++ 10 ∷ ((path_key ++ path_encode stored) ++ 10 ∷ ((date_key ++ when) ++ 10 ∷ []))

abbrev path_or : Option Bytes → Bytes → Bytes
path_or none rest = rest
path_or (some v) rest = path_decode v

-- Restore: the first line with a path counts, and the text is empty where there is none.
unfoldable pub first_path : List Bytes → Bytes
unfolding cut_prefix path_decode
first_path [] = []
first_path (line ∷ lines) = path_or (cut_prefix path_key line) (first_path lines)

unfoldable pub read_path : Bytes → Bytes
unfolding split first_path
read_path body = first_path (split 10 body)

abbrev read_date : Option Bytes → Bytes × Bytes → Bytes × Bytes
read_date none found = found
read_date (some v) found = (found.0, v)

abbrev read_line : Option Bytes → Option Bytes → Bytes × Bytes → Bytes × Bytes
read_line (some v) date found = (path_decode v, found.1)
read_line none date found = read_date date found

-- listOne: the last line of each kind counts.
unfoldable pub read_lines : Bytes × Bytes → List Bytes → Bytes × Bytes
unfolding cut_prefix path_decode
read_lines found [] = found
read_lines found (line ∷ lines) =
    read_lines (read_line (cut_prefix path_key line) (cut_prefix date_key line) found) lines

unfoldable pub read_info : Bytes → Bytes × Bytes
unfolding split read_lines
read_info body = read_lines ([], []) (split 10 body)

IsFree-line : (key s : Bytes) → IsFree 10 key → IsFree 10 s → IsFree 10 (key ++ s)
IsFree-line [] s k f = f
IsFree-line (c ∷ key) s (h, k) f = (h, IsFree-line key s k f)

-- The lines of a body.
lines_of :
    (stored when : Bytes)
    → AreBytes stored
    → IsFree 10 when
    → split 10 (info_text stored when)
      ≡ heading ∷ (path_key ++ path_encode stored) ∷ (date_key ++ when) ∷ [] ∷ []
unfolding info_text
lines_of stored when b f =
    split-append 10 heading _ (ground arith)
    ∙ ap (λ x. heading ∷ x)
        (split-append 10 (path_key ++ path_encode stored) _
            (IsFree-line path_key (path_encode stored) (ground arith) (path_encode-IsFree stored b))
          ∙ ap (λ x. (path_key ++ path_encode stored) ∷ x)
              (split-append 10 (date_key ++ when) [] (IsFree-line date_key when (ground arith) f)
                ∙ ap (λ x. (date_key ++ when) ∷ x) (split-free 10 [] tt)))

-- Restore reads the path back.
pub read_path-info_text :
    (stored when : Bytes)
    → AreBytes stored
    → IsFree 10 when
    → read_path (info_text stored when) ≡ stored
unfolding read_path
read_path-info_text stored when b f =
    ap first_path (lines_of stored when b f)
    ∙ (unfold first_path cut_prefix in refl ∙ path_decode-path_encode stored b)

-- The listing reads the path and the time back.
pub read_info-info_text :
    (stored when : Bytes)
    → AreBytes stored
    → IsFree 10 when
    → read_info (info_text stored when) ≡ (stored, when)
unfolding read_info
read_info-info_text stored when b f =
    ap (read_lines ([], [])) (lines_of stored when b f)
    ∙ (unfold read_lines cut_prefix in
        refl ∙ ap (λ x. (x, when)) (path_decode-path_encode stored b))
