-- ===== src/Trash/Emptied/Samples.antt =====
-- A trash directory with one file, and three lines of /proc/self/mountinfo.
use dankgo.Prelude.{
  ◌≡◌, ◌⊎◌, refl, true, false, none, some, List, [], ◌∷◌, ◌++◌, All, if◌then◌else◌,
}
use dankgo.Prelude.Text.{Bytes, codes, eqb, has_prefix}
use dankgo.Prelude.Split.{split}
use dankgo.Prelude.Members.{contains}
use dankgo.Trash.Tree.{FilePath, Fs, same, below, new_file}
use dankgo.Trash.Place.{files_name, info_name}
use dankgo.Trash.Empty.{
  Removal, ReadDir, empty, parse_mount_info, fields_of, mount_info_fs_type, skip_mount_point,
}
use dankgo.Trash.Emptied.{empty-emptied}

abbrev file : Bytes
file = codes "a.txt"

abbrev one_left : Fs
one_left p = if same p (file ∷ codes "files" ∷ []) then some (new_file 1 []) else none

abbrev removing : Removal
removing = record { fails = λ _. false; spared = λ _. false; removable = λ _. true }

abbrev one_file : ReadDir
one_file p = if same p (codes "files" ∷ []) then some (file ∷ []) else none

empty-emptied_example :
    let s = empty removing one_file ([] ∷ []) (one_left, true) in
    (s.1 ≡ true)
    × (((q : FilePath) → All (λ (t : FilePath). below t q ≡ none) ([] ∷ []) → s.0 q ≡ one_left q)
        × ((sub : Bytes) (names : List Bytes) (name : Bytes) (way : FilePath)
            → (sub ≡ files_name) ⊎ (sub ≡ info_name)
            → one_file (sub ∷ []) ≡ some names
            → contains names name ≡ true
            → s.0 (way ++ name ∷ sub ∷ []) ≡ none))
empty-emptied_example = empty-emptied removing one_file one_left [] [] [] (λ _. refl)

parse_mount_info-lines :
    parse_mount_info (
      codes
        "22 1 0:20 / /proc rw - proc proc rw\n23 1 8:1 / /mnt rw shared:1 - ext4 /dev/sda1 rw\n24 1 0:3 / /net rw - autofs x rw\n")
    ≡ codes "/mnt" ∷ []
unfolding parse_mount_info split fields_of mount_info_fs_type skip_mount_point eqb contains
    has_prefix
parse_mount_info-lines = refl
