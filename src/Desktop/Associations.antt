-- ===== src/Desktop/Associations.antt =====
-- desktop/mimeapps.go: the associations of the mimeapps.list files, and how a default is set.
use dankgo.Prelude.{Option, none, some, List, [], ◌∷◌, ◌++◌, if◌then◌else◌}
use dankgo.Prelude.Text.{Bytes, codes, eqb}
use dankgo.Prelude.Members.{GoMap, assign, contains, list_at}
use dankgo.Prelude.Split.{has_suffix}
use dankgo.Desktop.Groups.{Group, parse_groups, split_list, is_empty}

pub record MimeAssociations : Type 0 where
  pub defaults : GoMap Bytes
  pub added : GoMap (List Bytes)
  pub removed : GoMap (List Bytes)

unfoldable pub new_associations : MimeAssociations
new_associations = record { defaults = λ _. none; added = λ _. none; removed = λ _. none }

abbrev pub key_of : Option Group → GoMap Bytes
key_of none mime = none
key_of (some g) mime = g mime

abbrev pub first_of : List Bytes → Option Bytes
first_of [] = none
first_of (x ∷ xs) = some x

abbrev pub first_part : Option Bytes → Option Bytes
first_part none = none
first_part (some value) = first_of (split_list value)

abbrev pub all_parts : Option Bytes → Option (List Bytes)
all_parts none = none
all_parts (some value) = some (split_list value)

unfoldable pub associations_from_data : Bytes → MimeAssociations
unfolding parse_groups split_list
associations_from_data text =
    let groups = parse_groups text in
    record {
      defaults = λ mime. first_part (key_of (groups (codes "Default Applications")) mime);
      added = λ mime. all_parts (key_of (groups (codes "Added Associations")) mime);
      removed = λ mime. all_parts (key_of (groups (codes "Removed Associations")) mime);
    }

abbrev pub if_missing : Option Bytes → Option Bytes → Option Bytes
if_missing none new = new
if_missing (some old) new = some old

abbrev pub appended : Option (List Bytes) → Option (List Bytes) → Option (List Bytes)
appended old none = old
appended old (some new) = some (list_at old ++ new)

-- What one file adds to those before it.
unfoldable pub merge : MimeAssociations → MimeAssociations → MimeAssociations
merge merged assoc = record {
  defaults = λ mime. if_missing (merged.defaults mime) (assoc.defaults mime);
  added = λ mime. appended (merged.added mime) (assoc.added mime);
  removed = λ mime. appended (merged.removed mime) (assoc.removed mime);
}

-- The files that can be read, in the order of the search paths.
unfoldable pub merge_all : MimeAssociations → List MimeAssociations → MimeAssociations
unfolding merge
merge_all merged [] = merged
merge_all merged (assoc ∷ rest) = merge_all (merge merged assoc) rest

unfoldable pub merged_associations : List MimeAssociations → MimeAssociations
unfolding merge_all new_associations
merged_associations files = merge_all new_associations files

abbrev pub without : Bytes → List Bytes → List Bytes
without id [] = []
without id (x ∷ xs) = let rest = without id xs in if eqb x id then rest else x ∷ rest

abbrev pub unless_empty : List Bytes → Option (List Bytes)
unless_empty [] = none
unless_empty (x ∷ xs) = some (x ∷ xs)

abbrev pub removed_without : Bytes → Option (List Bytes) → Option (List Bytes)
removed_without id none = none
removed_without id (some ids) = unless_empty (without id ids)

abbrev pub added_with : Bytes → Option (List Bytes) → Option (List Bytes)
added_with id ids = if contains (list_at ids) id then ids else some (list_at ids ++ id ∷ [])

-- One round of the update, at one MIME type.
unfoldable pub set_one : Bytes → Bytes → MimeAssociations → MimeAssociations
unfolding contains eqb
set_one id mime assoc = if is_empty mime then assoc else record {
  defaults = assign mime (some id) assoc.defaults;
  added = assign mime (added_with id (assoc.added mime)) assoc.added;
  removed = assign mime (removed_without id (assoc.removed mime)) assoc.removed;
}

abbrev pub set_each : Bytes → List Bytes → MimeAssociations → MimeAssociations
set_each id [] assoc = assoc
set_each id (mime ∷ mimes) assoc = set_each id mimes (set_one id mime assoc)

unfoldable pub desktop_id : Bytes → Bytes
unfolding has_suffix
desktop_id id = if has_suffix id (codes ".desktop") then id else id ++ codes ".desktop"

-- The update that setDefaultAssociations makes to the user's file.
unfoldable pub set_default_associations : List Bytes → Bytes → MimeAssociations → MimeAssociations
unfolding set_one desktop_id
set_default_associations mimes id assoc = set_each (desktop_id id) mimes assoc
