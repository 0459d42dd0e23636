-- ===== src/Trash/Place.antt =====
-- trash/trash.go: where a path's trash is. The environment gives the home trash and the user's number;
-- its paths are absolute.
use dankgo.Prelude.{
  ℕ, Bool, false, not, ◌&&◌, Option, none, some, [], ◌∷◌, ◌++◌, if◌then◌else◌, ◌==◌,
}
use dankgo.Prelude.Text.{Bytes, codes, has_prefix}
use dankgo.Trash.Tree.{FilePath, Node, Fs, below}
use dankgo.Trash.Paths.{dots, show_abs, show_rel}

-- XDG_DATA_HOME where it is set, the home directory where it is known, and os.Getuid in digits.
pub record Environment : Type 0 where
  pub xdg_data_home : Option FilePath
  pub home : Option FilePath
  pub uid : Bytes

abbrev pub files_name : Bytes
files_name = codes "files"

abbrev pub info_name : Bytes
info_name = codes "info"

abbrev trash_in_home : Option FilePath → Option FilePath
trash_in_home none = none
trash_in_home (some h) = some (codes "Trash" ∷ codes "share" ∷ codes ".local" ∷ h)

abbrev data_trash : Option FilePath → Option FilePath → Option FilePath
data_trash (some xdg) home = some (codes "Trash" ∷ xdg)
data_trash none home = trash_in_home home

unfoldable pub home_trash_dir : Environment → Option FilePath
home_trash_dir env = data_trash env.xdg_data_home env.home

abbrev device_of : Option Node → Option ℕ
device_of none = none
device_of (some n) = some n.device

unfoldable pub fs_device : Fs → FilePath → Option ℕ
fs_device fs p = device_of (fs p)

abbrev or_else : Option ℕ → Option ℕ → Option ℕ
or_else (some d) other = some d
or_else none other = other

unfoldable pub fs_device_walk_up : Fs → FilePath → Option ℕ
unfolding fs_device
fs_device_walk_up fs [] = fs_device fs []
fs_device_walk_up fs (c ∷ cs) = or_else (fs_device fs (c ∷ cs)) (fs_device_walk_up fs cs)

abbrev is_device : ℕ → Option ℕ → Bool
is_device dev none = false
is_device dev (some d) = d == dev

-- The loop of findTopDir.
unfoldable pub climb : Fs → ℕ → FilePath → FilePath
unfolding fs_device
climb fs dev [] = []
climb fs dev (c ∷ cs) =
    let higher = climb fs dev cs in if is_device dev (fs_device fs cs) then higher else c ∷ cs

abbrev climb_from : Fs → FilePath → Option ℕ → Option FilePath
climb_from fs p none = none
climb_from fs p (some dev) = some (climb fs dev p)

unfoldable pub find_top_dir : Fs → FilePath → Option FilePath
unfolding fs_device climb
find_top_dir fs p = climb_from fs p (fs_device fs p)

abbrev pub shared_node : Option Node → Bool
shared_node none = false
shared_node (some n) = not n.is_link && (n.is_dir && n.sticky)

unfoldable pub is_valid_shared_trash : Fs → FilePath → Bool
is_valid_shared_trash fs p = shared_node (fs p)

abbrev pub rel_text : FilePath → Option FilePath → Bytes
rel_text p none = show_abs p
rel_text p (some way) = if has_prefix (show_rel way) dots then show_abs p else show_rel way

-- filepath.Rel of a path below its top directory, or the absolute path.
unfoldable pub stored_below : FilePath → FilePath → Bytes
unfolding show_abs show_rel has_prefix below
stored_below top p = rel_text p (below top p)

abbrev pub shared_name : Bytes
shared_name = codes ".Trash"

abbrev pub mount_trash : Fs → Bytes → FilePath → FilePath
mount_trash fs uid top =
    if is_valid_shared_trash fs (shared_name ∷ top)
    then uid ∷ shared_name ∷ top
    else (codes ".Trash-" ++ uid) ∷ top

abbrev pub on_mount : Fs → Bytes → FilePath → Option FilePath → Option (FilePath × Bytes)
on_mount fs uid p none = none
on_mount fs uid p (some top) = some (mount_trash fs uid top, stored_below top p)

abbrev pub choose :
    Fs → Bytes → FilePath → FilePath → Option ℕ → Option ℕ → Option (FilePath × Bytes)
choose fs uid home p none _ = none
choose fs uid home p (some d) none = none
choose fs uid home p (some d) (some h) =
    if d == h then some (home, show_abs p) else on_mount fs uid p (find_top_dir fs p)

abbrev pub place_in : Fs → Bytes → FilePath → Option FilePath → Option (FilePath × Bytes)
place_in fs uid p none = none
place_in fs uid p (some home) = choose fs uid home p (fs_device fs p) (fs_device_walk_up fs home)

-- trashDirForPath: the trash directory and the path to store; `none` is its error.
unfoldable pub trash_dir_for_path : Environment → Fs → FilePath → Option (FilePath × Bytes)
unfolding home_trash_dir fs_device fs_device_walk_up find_top_dir is_valid_shared_trash show_abs
    stored_below
trash_dir_for_path env fs p = place_in fs env.uid p (home_trash_dir env)
