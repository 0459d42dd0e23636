-- ===== src/Trash/Restore.antt =====
-- trash/trash.go: Restore, and the listing of a trash directory whose info names are given.
use dankgo.Prelude.{
  ℕ, ◌+◌, ◌-◌, Bool, true, false, Option, none, some, List, [], ◌∷◌, if◌then◌else◌, length, take,
}
use dankgo.Prelude.Text.{Bytes, eqb}
use dankgo.Prelude.Split.{has_suffix}
use dankgo.Trash.Tree.{FilePath, Node, Fs, Refusals, exists, mkdir_all, os_rename, remove}
use dankgo.Trash.Paths.{dir, base_name, is_nil, is_abs, resolve}
use dankgo.Trash.Place.{Environment, home_trash_dir, shared_name, info_name}
use dankgo.Trash.Info.{read_path, read_info}
use dankgo.Trash.Put.{Entry, files_at, info_at, trash_info_ext}

abbrev pub text_of : Option Node → Option Bytes
text_of none = none
text_of (some n) = if n.is_dir then none else some n.content

-- os.ReadFile
unfoldable pub read_file : Fs → FilePath → Option Bytes
read_file fs p = text_of (fs p)

abbrev pub top_of : FilePath → FilePath
top_of trash = if eqb (base_name (dir trash)) shared_name then dir (dir trash) else dir trash

unfoldable pub restore_target : FilePath → Bytes → FilePath
unfolding resolve eqb
restore_target trash stored =
    if is_abs stored then resolve [] stored else resolve (top_of trash) stored

module _ (no : Refusals) where
  abbrev pub finish_restore : FilePath → Fs → Option Fs → Fs × Bool
  finish_restore info fs none = (fs, false)
  finish_restore info fs (some after) = (remove info after, true)

  abbrev pub move_back : FilePath → FilePath → FilePath → Fs × Bool → Fs × Bool
  move_back files info target (fs, false) = (fs, false)
  move_back files info target (fs, true) = finish_restore info fs (os_rename no files target fs)

  abbrev pub restore_to : FilePath → FilePath → FilePath → Fs → Fs × Bool
  restore_to files info target fs =
      if exists fs target
      then (fs, false)
      else move_back files info target (mkdir_all no (dir target) fs)

  abbrev pub restore_stored : FilePath → Bytes → Bytes → Fs → Fs × Bool
  restore_stored trash name stored fs =
      if is_nil stored
      then (fs, false)
      else restore_to (files_at trash name) (info_at trash name) (restore_target trash stored) fs

  abbrev pub restore_read : FilePath → Bytes → Fs → Option Bytes → Fs × Bool
  restore_read trash name fs none = (fs, false)
  restore_read trash name fs (some body) = restore_stored trash name (read_path body) fs

  abbrev pub restore_in : Option FilePath → Bytes → Fs → Fs × Bool
  restore_in none name fs = (fs, false)
  restore_in (some trash) name fs = restore_read trash name fs (read_file fs (info_at trash name))

  abbrev pub given_or : Option FilePath → Option FilePath → Option FilePath
  given_or (some trash) home = some trash
  given_or none home = home

  -- Restore: no trash directory stands for the one at home. The flag is whether there is no error. The name
  -- is one component of a path, without a separator or dots, and an absolute target is taken as cleaned.
  unfoldable pub restore : Environment → Bytes → Option FilePath → Fs → Fs × Bool
  unfolding home_trash_dir read_file read_path restore_target exists mkdir_all os_rename remove
  restore env name trash fs = restore_in (given_or trash (home_trash_dir env)) name fs

-- strings.TrimSuffix at a suffix.
abbrev pub trim_suffix : Bytes → Bytes → Bytes
trim_suffix s suffix = take (length s - length suffix) s

abbrev pub sized_by : Option Node → Entry → Entry
sized_by none e = e
sized_by (some n) e = record e { size = n.size; is_dir = n.is_dir }

abbrev pub entry_from : FilePath → Bytes → Fs → Option Bytes → Option Entry
entry_from trash name fs none = none
entry_from trash name fs (some body) = some (
    sized_by (fs (files_at trash name)) (record {
      name = name;
      original_path = (read_info body).0;
      deletion_date = (read_info body).1;
      trash_dir = trash;
      files_path = files_at trash name;
      info_path = info_at trash name;
      size = 0;
      is_dir = false;
    }))

-- One round of listOne.
unfoldable pub entry_at : FilePath → Fs → Bytes → Option Entry
unfolding has_suffix read_file read_info
entry_at trash fs info =
    if has_suffix info trash_info_ext
    then entry_from trash (trim_suffix info trash_info_ext) fs
        (read_file fs (info ∷ info_name ∷ trash))
    else none

abbrev pub with_entry : Option Entry → List Entry → List Entry
with_entry none es = es
with_entry (some e) es = e ∷ es

-- listOne, at what os.ReadDir gives for the info directory; `none` is its error.
unfoldable pub list_one : FilePath → Fs → List Bytes → List Entry
unfolding entry_at
list_one trash fs [] = []
list_one trash fs (info ∷ rest) = with_entry (entry_at trash fs info) (list_one trash fs rest)

-- Count over one directory.
unfoldable pub count_one : List Bytes → ℕ
unfolding has_suffix
count_one [] = 0
count_one (info ∷ rest) = (if has_suffix info trash_info_ext then 1 else 0) + count_one rest
