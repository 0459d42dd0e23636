-- ===== src/Trash/Samples.antt =====
-- A file on a mount that is put in the trash of the mount, listed and restored.
use dankgo.Prelude.{
  List, ◌≡◌, refl, sym, ◌∙◌, true, false, ◌&&◌, none, some, [], ◌∷◌, ◌++◌, arith, if◌then◌else◌,
  Bool-cases, inl, inr, subst,
}
use mathlib.Core.Option.{none-ne-some, some-injective}
use dankgo.Prelude.Text.{Bytes, codes, eqb, has_prefix}
use dankgo.Prelude.Decimal.{itoa, digits}
use dankgo.Trash.Tree.{
  FilePath, Node, Fs, Refusals, new_dir, same, below, exists, moved, os_rename, mkdir_all,
  create_new, remove,
}
use dankgo.Trash.Paths.{AreNames, base_name, show_rel, show_abs}
use dankgo.Trash.Place.{
  Environment, home_trash_dir, fs_device, fs_device_walk_up, climb, find_top_dir,
  is_valid_shared_trash, stored_below, trash_dir_for_path, shared_name,
}
use dankgo.Trash.Info.{info_text}
use dankgo.Trash.Put.{
  Entry, put, ext, stem, is_taken, candidate, try_names, unique_name, ensure_trash_dirs,
  write_trash_info,
}
use dankgo.Trash.Restore.{restore, list_one}
use dankgo.Trash.Keeps.{Keeps}
use dankgo.Trash.Safety.{IsTree, Moved, Recorded}
use dankgo.Trash.Invariant.{put-IsTree}
use dankgo.Trash.Many.{trash_each, trash_paths, trash_paths-Reported, Reported, Beside}
use dankgo.Trash.Outcome.{put-Keeps, put-Moved}
use dankgo.Trash.Naming.{unique_name-found}
use dankgo.Trash.RoundTrip.{restore-put}
use dankgo.Trash.Listed.{list_one-put}

abbrev mount : Bytes
mount = codes "m"

abbrev file : Bytes
file = codes "a.txt"

abbrev node : Node
node = record {
  is_dir = false;
  is_link = false;
  sticky = false;
  device = 2;
  size = 5;
  content = codes "hello";
}

-- A root on one device, a mount with one file on another.
abbrev small : Fs
small [] = some (new_dir 1)
small (c ∷ []) = if eqb c mount then some (new_dir 2) else none
small (c ∷ d ∷ []) = if eqb d mount && eqb c file then some node else none
small (c ∷ d ∷ _ ∷ _) = none

small-IsTree : IsTree small
small-IsTree c [] n h = refl
small-IsTree c (d ∷ []) n h = elim (Bool-cases (eqb d mount)) [
  | inl e ↦ rw e refl
  | inr e ↦ absurd (none-ne-some _ (rw e at h))
]
small-IsTree c (d ∷ _ ∷ _) n h = absurd (none-ne-some _ h)

abbrev env : Environment
env = record { xdg_data_home = some []; home = none; uid = codes "7" }

abbrev willing : Refusals
willing = record {
  rename = λ _ _. false;
  create = λ _. false;
  write = λ _. false;
  mkdir = λ _. false;
}

abbrev when : Bytes
when = codes "2026-01-02T03:04:05"

abbrev entry : Entry
entry = record {
  name = file;
  original_path = file;
  deletion_date = when;
  trash_dir = codes ".Trash-7" ∷ mount ∷ [];
  files_path = file ∷ codes "files" ∷ codes ".Trash-7" ∷ mount ∷ [];
  info_path = codes "a.txt.trashinfo" ∷ codes "info" ∷ codes ".Trash-7" ∷ mount ∷ [];
  size = 5;
  is_dir = false;
}

put-small : (put willing env when (file ∷ mount ∷ []) small).1 ≡ some entry
unfolding put trash_dir_for_path ensure_trash_dirs unique_name write_trash_info os_rename remove
    home_trash_dir fs_device fs_device_walk_up climb find_top_dir is_valid_shared_trash stored_below
    mkdir_all create_new info_text exists is_taken below same eqb has_prefix show_rel show_abs moved
put-small = refl

find_top_dir-small : find_top_dir small (file ∷ mount ∷ []) ≡ some (mount ∷ [])
unfolding find_top_dir climb fs_device eqb
find_top_dir-small = refl

-- With a file of the same name in the trash.
abbrev crowded : Fs
crowded p = if same p (file ∷ codes "files" ∷ []) then some node else none

unique_name-crowded : unique_name crowded [] file ≡ some (codes "a.2.txt")
unfolding unique_name is_taken try_names candidate stem ext itoa digits exists same eqb
unique_name-crowded = refl

abbrev stubborn : Refusals
stubborn = record willing { rename = λ _ _. true }

put-Keeps_example : Keeps small ((put stubborn env when (file ∷ mount ∷ []) small).0)
put-Keeps_example = put-Keeps stubborn env when small (file ∷ mount ∷ []) small-IsTree put_refused
  where
    put_refused : (put stubborn env when (file ∷ mount ∷ []) small).1 ≡ none
    put_refused =
        unfold put trash_dir_for_path ensure_trash_dirs unique_name write_trash_info os_rename
          remove home_trash_dir fs_device fs_device_walk_up climb find_top_dir is_valid_shared_trash
          stored_below mkdir_all create_new info_text exists is_taken below same eqb has_prefix
          show_rel show_abs moved in
        refl

put-Moved_example :
    Moved small (file ∷ mount ∷ []) entry ((put willing env when (file ∷ mount ∷ []) small).0)
    × Recorded env when small
        (file ∷ mount ∷ [])
        entry
        ((put willing env when (file ∷ mount ∷ []) small).0)
put-Moved_example =
    put-Moved willing env when small (file ∷ mount ∷ []) entry small-IsTree put-small

unique_name-found_example :
    (name : Bytes) × ((unique_name crowded [] file ≡ some name)
      × (is_taken crowded [] name ≡ false))
unique_name-found_example = unique_name-found crowded [] file 0 (omega arith) free
  where
    free : is_taken crowded [] (candidate file 2) ≡ false
    free = unfold is_taken candidate stem ext itoa digits exists same eqb in refl

not_shared :
    (top : FilePath)
    → find_top_dir small (file ∷ mount ∷ []) ≡ some top
    → eqb (base_name top) shared_name ≡ false
not_shared top h =
    subst (λ x. eqb (base_name x) shared_name ≡ false)
      (some-injective _ _ (sym find_top_dir-small ∙ h)) (unfold eqb in refl)

names : AreNames (file ∷ mount ∷ [])
names = unfold eqb in (ground arith)

restore-put_example :
    let r =
      restore willing env file
        (some (codes ".Trash-7" ∷ mount ∷ []))
        ((put willing env when (file ∷ mount ∷ []) small).0) in
    (r.1 ≡ true) × (Keeps small (r.0) × (exists (r.0) entry.info_path ≡ false))
restore-put_example =
    restore-put willing env when small file (mount ∷ []) entry node small-IsTree names
      (ground arith) (unfold eqb in refl) put-small not_shared (unfold below same eqb in refl) refl

list_one-put_example :
    list_one entry.trash_dir
      ((put willing env when (file ∷ mount ∷ []) small).0)
      (codes "x" ∷ codes "a.txt.trashinfo" ∷ [])
    ≡ list_one entry.trash_dir ((put willing env when (file ∷ mount ∷ []) small).0) (codes "x" ∷ [])
      ++ entry ∷ list_one entry.trash_dir ((put willing env when (file ∷ mount ∷ []) small).0) []
list_one-put_example =
    list_one-put willing env when small (file ∷ mount ∷ []) entry node (codes "x" ∷ []) []
      small-IsTree names (ground arith) (unfold eqb in refl) put-small not_shared
      (unfold below same eqb in refl)

put-IsTree_example : IsTree ((put stubborn env when (file ∷ mount ∷ []) small).0)
put-IsTree_example = put-IsTree stubborn env when (file ∷ mount ∷ []) small small-IsTree

abbrev two_paths : List (Bytes × FilePath)
two_paths = (when, file ∷ mount ∷ []) ∷ (when, codes "none" ∷ mount ∷ []) ∷ []

trash_paths-two :
    (trash_paths willing env two_paths small).1
    ≡ record { trashed = (file ∷ mount ∷ []) ∷ []; failed = (codes "none" ∷ mount ∷ []) ∷ [] }
unfolding trash_paths trash_each put trash_dir_for_path ensure_trash_dirs unique_name
    write_trash_info os_rename remove home_trash_dir fs_device fs_device_walk_up climb find_top_dir
    is_valid_shared_trash stored_below mkdir_all create_new info_text exists is_taken below same eqb
    has_prefix show_rel show_abs moved
trash_paths-two = refl

trash_paths-Reported_example :
    let s = trash_paths willing env two_paths small in
    Reported two_paths ((s.1).trashed) ((s.1).failed)
    × (IsTree (s.0) × Beside ((s.1).trashed) small (s.0))
trash_paths-Reported_example = trash_paths-Reported willing env two_paths small small-IsTree
