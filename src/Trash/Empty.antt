-- ===== src/Trash/Empty.antt =====
-- trash/trash.go and trash/mounts_linux.go: the trash directories, what List, Count and Empty do over all of
-- them, and the mount points. What os.ReadDir and os.Stat give, and what os.RemoveAll cannot remove, are
-- arguments.
use dankgo.Prelude.{
  ℕ, ◌+◌, Bool, false, not, ◌&&◌, ◌||◌, Option, none, some, List, [], ◌∷◌, ◌++◌, if◌then◌else◌,
  ◌==◌, leb, any, drop, get_elem?,
}
use dankgo.Prelude.Text.{Bytes, codes, eqb, has_prefix}
use dankgo.Prelude.Split.{split}
use dankgo.Prelude.Members.{contains}
use dankgo.Trash.Tree.{FilePath, Node, Fs, same, below, is_dir_at}
use dankgo.Trash.Paths.{is_nil}
use dankgo.Trash.Place.{
  Environment, home_trash_dir, is_valid_shared_trash, shared_name, files_name, info_name,
}
use dankgo.Trash.Put.{Entry}
use dankgo.Trash.Restore.{list_one, count_one}

abbrev is_space : ℕ → Bool
is_space c = c == 32 || (leb 9 c && leb c 13)

abbrev open_field : ℕ → List Bytes → List Bytes
open_field c [] = (c ∷ []) ∷ []
open_field c (f ∷ fs) = (c ∷ f) ∷ fs

abbrev close_field : List Bytes → List Bytes
close_field [] = []
close_field (f ∷ fs) = if is_nil f then f ∷ fs else [] ∷ f ∷ fs

-- The parts between white space, of which the first may be empty.
abbrev parts_of : Bytes → List Bytes
parts_of [] = [] ∷ []
parts_of (c ∷ cs) =
    let rest = parts_of cs in if is_space c then close_field rest else open_field c rest

abbrev nonempty : List Bytes → List Bytes
nonempty [] = []
nonempty (f ∷ fs) = let rest = nonempty fs in if is_nil f then rest else f ∷ rest

-- strings.Fields, at the white space of ASCII.
unfoldable pub fields_of : Bytes → List Bytes
fields_of line = nonempty (parts_of line)

abbrev type_after : List Bytes → Bytes
type_after [] = []
type_after (f ∷ []) = []
type_after (f ∷ g ∷ fs) = let rest = type_after (g ∷ fs) in if eqb f (codes "-") then g else rest

unfoldable pub mount_info_fs_type : List Bytes → Bytes
unfolding eqb
mount_info_fs_type fields = type_after (drop 6 fields)

unfoldable pub skip_mount_point : Bytes → List Bytes → Bool
unfolding eqb contains has_prefix
skip_mount_point mp seen =
    (eqb mp (codes "/") || contains seen mp)
    || any (λ p. eqb mp p || has_prefix mp (p ++ codes "/"))
        (codes "/proc" ∷ codes "/sys" ∷ codes "/dev" ∷ [])

abbrev kept_mount : List Bytes → List Bytes → Option Bytes → Option Bytes
kept_mount seen fields none = none
kept_mount seen fields (some mp) =
    if skip_mount_point mp seen || eqb (mount_info_fs_type fields) (codes "autofs")
    then none
    else some mp

abbrev seen_with : Option Bytes → List Bytes → List Bytes
seen_with none seen = seen
seen_with (some mp) seen = mp ∷ seen

abbrev mounts_past : List Bytes → List Bytes → List Bytes
mounts_past seen [] = []
mounts_past seen (line ∷ lines) =
    let mp = kept_mount seen (fields_of line) (get_elem? (fields_of line) 4) in
    seen_with mp (mounts_past (seen_with mp seen) lines)

unfoldable pub parse_mount_info : Bytes → List Bytes
unfolding split fields_of mount_info_fs_type skip_mount_point eqb
parse_mount_info text = mounts_past [] (split 10 text)

abbrev plain_dir : Option Node → Bool
plain_dir none = false
plain_dir (some n) = n.is_dir && not n.is_link

abbrev on_mounts : Fs → (FilePath → Option Node) → Bytes → List FilePath → List FilePath
on_mounts fs stat uid [] = []
on_mounts fs stat uid (mount ∷ mounts) =
    let shared = shared_name ∷ mount in
    let own = (codes ".Trash-" ++ uid) ∷ mount in
    (if is_valid_shared_trash fs shared && is_dir_at (stat (uid ∷ shared))
      then (uid ∷ shared) ∷ []
      else [])
    ++ ((if plain_dir (fs own) then own ∷ [] else []) ++ on_mounts fs stat uid mounts)

abbrev with_home : Option FilePath → List FilePath → List FilePath
with_home none dirs = dirs
with_home (some home) dirs = home ∷ dirs

unfoldable pub all_trash_dirs :
    Environment → Fs → (FilePath → Option Node) → List FilePath → List FilePath
unfolding home_trash_dir is_valid_shared_trash
all_trash_dirs env fs stat mounts =
    with_home (home_trash_dir env) (on_mounts fs stat env.uid mounts)

-- os.ReadDir; none is its error.
abbrev pub ReadDir : Type 0
ReadDir = FilePath → Option (List Bytes)

abbrev listed : FilePath → Fs → Option (List Bytes) → List Entry
listed trash fs none = []
listed trash fs (some infos) = list_one trash fs infos

-- List
unfoldable pub list_all : ReadDir → Fs → List FilePath → List Entry
unfolding list_one
list_all read fs [] = []
list_all read fs (trash ∷ dirs) =
    listed trash fs (read (info_name ∷ trash)) ++ list_all read fs dirs

abbrev counted : Option (List Bytes) → ℕ
counted none = 0
counted (some infos) = count_one infos

-- Count
unfoldable pub count_all : ReadDir → List FilePath → ℕ
unfolding count_one
count_all read [] = 0
count_all read (trash ∷ dirs) = counted (read (info_name ∷ trash)) + count_all read dirs

-- Which calls of os.RemoveAll fail, and what they leave then; and whether os.Remove can remove a path.
pub record Removal : Type 0 where
  pub fails : FilePath → Bool
  pub spared : FilePath → Bool
  pub removable : FilePath → Bool

abbrev pub removed_at : Removal → FilePath → Option FilePath → FilePath → Option Node → Option Node
removed_at rm p none q n = n
removed_at rm p (some way) q n = if rm.fails p && rm.spared q then n else none

-- os.RemoveAll
unfoldable pub remove_all : Removal → FilePath → Fs → Fs
unfolding below
remove_all rm p fs q = removed_at rm p (below p q) q (fs q)

-- The file system, and whether no call has failed.
abbrev pub Emptied : Type 0
Emptied = Fs × Bool

unfoldable pub remove_each : Removal → FilePath → List Bytes → Emptied → Emptied
unfolding remove_all
remove_each rm dir [] s = s
remove_each rm dir (name ∷ names) (fs, ok) =
    remove_each rm dir names (remove_all rm (name ∷ dir) fs, ok && not (rm.fails (name ∷ dir)))

abbrev pub remove_listed : Removal → FilePath → Option (List Bytes) → Emptied → Emptied
remove_listed rm dir none s = s
remove_listed rm dir (some names) s = remove_each rm dir names s

abbrev pub without_sizes : Removal → FilePath → Emptied → Emptied
without_sizes rm p (fs, ok) = ((λ q. if same p q && rm.removable p then none else fs q), ok)

-- emptyOne
unfoldable pub empty_one : Removal → ReadDir → FilePath → Emptied → Emptied
unfolding remove_each same
empty_one rm read trash s =
    let emptied_files = remove_listed rm (files_name ∷ trash) (read (files_name ∷ trash)) s in
    let emptied_info =
      remove_listed rm (info_name ∷ trash) (read (info_name ∷ trash)) emptied_files in
    without_sizes rm (codes "directorysizes" ∷ trash) emptied_info

-- Empty, over all trash directories; the flag is whether there is no error.
unfoldable pub empty : Removal → ReadDir → List FilePath → Emptied → Emptied
unfolding empty_one
empty rm read [] s = s
empty rm read (trash ∷ dirs) s = empty rm read dirs (empty_one rm read trash s)
