-- ===== src/Trash/Listed.antt =====
-- trash/trash.go: what the listing shows of an item that was put.
use dankgo.Prelude.{
  ◌-◌, ◌≡◌, refl, sym, ap, ◌∙◌, true, false, Option, none, some, List, [], ◌∷◌, ◌++◌, arith, subst,
  length, length-append, take, drop,
}
use dankgo.Prelude.Text.{Bytes, eqb, eqb_refl}
use dankgo.Prelude.Split.{IsFree, has_suffix}
use dankgo.Trash.Escape.{AreBytes}
use dankgo.Trash.Tree.{FilePath, Node, Fs, Refusals, below}
use dankgo.Trash.Paths.{AreNames, base_name}
use dankgo.Trash.Place.{Environment, shared_name, find_top_dir}
use dankgo.Trash.Info.{info_text, read_info-info_text}
use dankgo.Trash.Put.{Entry, put, files_at, info_at, trash_info_ext}
use dankgo.Trash.Safety.{IsTree}
use dankgo.Trash.Outcome.{put-Moved}
use dankgo.Trash.Stored.{trash_dir_for_path-Leads}
use dankgo.Trash.Restore.{
  read_file, text_of, entry_at, entry_from, list_one, with_entry, trim_suffix,
}

drop-append : (a b : Bytes) → drop (length a) (a ++ b) ≡ b
drop-append [] b = refl
drop-append (x ∷ a) b = drop-append a b

take-append : (a b : Bytes) → take (length a) (a ++ b) ≡ a
take-append [] b = refl
take-append (x ∷ a) b = ap (λ y. x ∷ y) (take-append a b)

cut_length : (a b : Bytes) → length (a ++ b) - length b ≡ length a
cut_length a b = omega (arith, length-append a b)

has_suffix-append : (a b : Bytes) → has_suffix (a ++ b) b ≡ true
unfolding has_suffix
has_suffix-append a b = rw (cut_length a b, drop-append a b) (eqb_refl b)

trim_suffix-append : (a b : Bytes) → trim_suffix (a ++ b) b ≡ a
trim_suffix-append a b = rw (cut_length a b) (take-append a b)

-- The listing's entry at an info file that it can read.
entry_at-read :
    (trash : FilePath) (fs : Fs) (name : Bytes)
    → entry_at trash fs (name ++ trash_info_ext)
      ≡ entry_from trash name fs (read_file fs (info_at trash name))
unfolding entry_at
entry_at-read trash fs name = rw (has_suffix-append name trash_info_ext) (
    ap (λ x. entry_from trash x fs (read_file fs (info_at trash name)))
      (trim_suffix-append name trash_info_ext))

entry_from-text :
    (trash : FilePath) (fs : Fs) (name stored when : Bytes) (n : Node)
    → AreBytes stored
    → IsFree 10 when
    → fs (files_at trash name) ≡ some n
    → entry_from trash name fs (some (info_text stored when))
      ≡ some (record {
        name = name;
        original_path = stored;
        deletion_date = when;
        trash_dir = trash;
        files_path = files_at trash name;
        info_path = info_at trash name;
        size = n.size;
        is_dir = n.is_dir;
      })
entry_from-text trash fs name stored when n b f h = rw (h, read_info-info_text stored when b f) refl

list_one-append :
    (trash : FilePath) (fs : Fs) (a b : List Bytes)
    → list_one trash fs (a ++ b) ≡ list_one trash fs a ++ list_one trash fs b
unfolding list_one
list_one-append trash fs [] b = refl
list_one-append trash fs (x ∷ a) b =
    ap (with_entry (entry_at trash fs x)) (list_one-append trash fs a b)
    ∙ sym (with_entry-append (entry_at trash fs x) (list_one trash fs a) (list_one trash fs b))
  where
    with_entry-append :
        (o : Option Entry) (a b : List Entry) → with_entry o a ++ b ≡ with_entry o (a ++ b)
    with_entry-append none a b = refl
    with_entry-append (some e) a b = refl

-- On a tree, the listing of the trash after Put shows exactly the entry that Put returned in the place of its
-- info file, whatever info files are read before and after it. The path has proper names, the time is one line,
-- the top directory is not named .Trash, and the info file did not stand inside the item.
pub list_one-put :
    (refused : Refusals) (env : Environment) (when : Bytes) (fs : Fs) (p : FilePath) (e : Entry)
    (n : Node) (before rest : List Bytes)
    → IsTree fs
    → AreNames p
    → IsFree 10 when
    → fs p ≡ some n
    → (put refused env when p fs).1 ≡ some e
    → ((top : FilePath) → find_top_dir fs p ≡ some top → eqb (base_name top) shared_name ≡ false)
    → below p e.info_path ≡ none
    → let after = (put refused env when p fs).0 in
      list_one e.trash_dir after (before ++ (e.name ++ trash_info_ext) ∷ rest)
      ≡ list_one e.trash_dir after before ++ e ∷ list_one e.trash_dir after rest
unfolding list_one
list_one-put refused env when fs p e n before rest tree names line at success named away =
    let (m, recorded) = put-Moved refused env when fs p e tree success in
    let after = (put refused env when p fs).0 in
    let (bytes, leads) =
      trash_dir_for_path-Leads env fs p e.trash_dir e.original_path names named recorded.placed in
    let (size, is_dir) = recorded.sized n at in
    let body : read_file after (info_at e.trash_dir e.name)
        ≡ some (info_text e.original_path e.deletion_date) =
      unfold read_file in ap text_of (ap after (sym recorded.info) ∙ (recorded.written away).1) in
    let there : after (files_at e.trash_dir e.name) ≡ some n =
      ap after (sym recorded.files) ∙ m.there [] n at in
    let read : entry_at e.trash_dir after (e.name ++ trash_info_ext) ≡ some e =
      entry_at-read e.trash_dir after e.name
      ∙ (ap (entry_from e.trash_dir e.name after) body
          ∙ (entry_from-text e.trash_dir after e.name e.original_path e.deletion_date n bytes
                (subst (IsFree 10) (sym recorded.date) line) there
              ∙ λ i. some (record {
                name = e.name;
                original_path = e.original_path;
                deletion_date = e.deletion_date;
                trash_dir = e.trash_dir;
                files_path = sym recorded.files i;
                info_path = sym recorded.info i;
                size = sym size i;
                is_dir = sym is_dir i;
              }))) in
    list_one-append e.trash_dir after before ((e.name ++ trash_info_ext) ∷ rest)
    ∙ ap (λ x. list_one e.trash_dir after before ++ with_entry x (list_one e.trash_dir after rest))
        read
