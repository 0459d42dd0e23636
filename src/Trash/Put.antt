-- ===== src/Trash/Put.antt =====
-- trash/trash.go: Put, with the choice of a free name. An absolute path is put; the time comes formatted.
use dankgo.Prelude.{
  ℕ, zero, suc, ◌-◌, Bool, true, false, not, ◌||◌, Option, none, some, [], ◌∷◌, ◌++◌, if◌then◌else◌,
  ◌==◌, length, take,
}
use dankgo.Prelude.Text.{Bytes, codes}
use dankgo.Prelude.Decimal.{itoa}
use dankgo.Trash.Tree.{
  FilePath, Node, Fs, Refusals, exists, mkdir_all, create_new, os_rename, remove,
}
use dankgo.Trash.Paths.{base_name, is_nil}
use dankgo.Trash.Place.{Environment, files_name, info_name, trash_dir_for_path}
use dankgo.Trash.Info.{info_text}

pub record Entry : Type 0 where
  pub name : Bytes
  pub original_path : Bytes
  pub deletion_date : Bytes
  pub trash_dir : FilePath
  pub files_path : FilePath
  pub info_path : FilePath
  pub size : ℕ
  pub is_dir : Bool

abbrev pub trash_info_ext : Bytes
trash_info_ext = codes ".trashinfo"

abbrev pub files_at : FilePath → Bytes → FilePath
files_at trash name = name ∷ files_name ∷ trash

abbrev pub info_at : FilePath → Bytes → FilePath
info_at trash name = (name ++ trash_info_ext) ∷ info_name ∷ trash

-- filepath.Ext of a base name: from the last dot on.
unfoldable pub ext : Bytes → Bytes
ext [] = []
ext (c ∷ cs) =
    let later = ext cs in if not (is_nil later) then later else if c == 46 then c ∷ cs else []

unfoldable pub stem : Bytes → Bytes
unfolding ext
stem s = take (length s - length (ext s)) s

unfoldable pub is_taken : Fs → FilePath → Bytes → Bool
unfolding exists
is_taken fs trash name = exists fs (files_at trash name) || exists fs (info_at trash name)

unfoldable pub candidate : Bytes → ℕ → Bytes
unfolding stem ext itoa
candidate base i = stem base ++ 46 ∷ (itoa i ++ ext base)

-- The loop of uniqueName, with the number of rounds that are left.
unfoldable pub try_names : Fs → FilePath → Bytes → ℕ → ℕ → Option Bytes
unfolding is_taken candidate
try_names fs trash base zero i = none
try_names fs trash base (suc left) i =
    let rest = try_names fs trash base left (suc i) in
    if is_taken fs trash (candidate base i) then rest else some (candidate base i)

unfoldable pub unique_name : Fs → FilePath → Bytes → Option Bytes
unfolding is_taken try_names
unique_name fs trash base =
    if is_taken fs trash base then try_names fs trash base 99998 2 else some base

module _ (no : Refusals) where
  abbrev pub then_info : FilePath → Fs × Bool → Fs × Bool
  then_info trash (fs, false) = (fs, false)
  then_info trash (fs, true) = mkdir_all no (info_name ∷ trash) fs

  unfoldable pub ensure_trash_dirs : FilePath → Fs → Fs × Bool
  unfolding mkdir_all
  ensure_trash_dirs trash fs = then_info trash (mkdir_all no (files_name ∷ trash) fs)

  unfoldable pub write_trash_info : FilePath → Bytes → Bytes → Fs → Fs × Bool
  unfolding create_new info_text
  write_trash_info p stored when fs = create_new no p (info_text stored when) fs

  abbrev pub finish : Entry → Fs → Option Fs → Fs × Option Entry
  finish e fs none = (remove e.info_path fs, none)
  finish e fs (some after) = (after, some e)

  abbrev pub move : FilePath → Entry → Fs × Bool → Fs × Option Entry
  move p e (fs, false) = (fs, none)
  move p e (fs, true) = finish e fs (os_rename no p e.files_path fs)

  abbrev pub entry_of : Node → FilePath → Bytes → Bytes → Bytes → Entry
  entry_of n trash stored when name = record {
    name = name;
    original_path = stored;
    deletion_date = when;
    trash_dir = trash;
    files_path = files_at trash name;
    info_path = info_at trash name;
    size = n.size;
    is_dir = n.is_dir;
  }

  abbrev pub put_as :
      Bytes → FilePath → Node → FilePath → Bytes → Fs → Option Bytes → Fs × Option Entry
  put_as when p n trash stored fs none = (fs, none)
  put_as when p n trash stored fs (some name) =
      move p (entry_of n trash stored when name)
        (write_trash_info (info_at trash name) stored when fs)

  abbrev pub put_made : Bytes → FilePath → Node → FilePath → Bytes → Fs × Bool → Fs × Option Entry
  put_made when p n trash stored (fs, false) = (fs, none)
  put_made when p n trash stored (fs, true) =
      put_as when p n trash stored fs (unique_name fs trash (base_name p))

  abbrev pub put_placed :
      Bytes → FilePath → Node → Fs → Option (FilePath × Bytes) → Fs × Option Entry
  put_placed when p n fs none = (fs, none)
  put_placed when p n fs (some (trash, stored)) =
      put_made when p n trash stored (ensure_trash_dirs trash fs)

  abbrev pub put_found : Environment → Bytes → FilePath → Fs → Option Node → Fs × Option Entry
  put_found env when p fs none = (fs, none)
  put_found env when p fs (some n) = put_placed when p n fs (trash_dir_for_path env fs p)

  -- Put: the file system after it, and the entry unless there is an error.
  unfoldable pub put : Environment → Bytes → FilePath → Fs → Fs × Option Entry
  unfolding trash_dir_for_path ensure_trash_dirs unique_name write_trash_info os_rename remove
  put env when p fs = put_found env when p fs (fs p)
