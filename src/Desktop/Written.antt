-- ===== src/Desktop/Written.antt =====
-- desktop/mimeapps.go: how the user's mimeapps.list is replaced, and what the files hold for an application that
-- reads them. The files are a map from paths to contents, and each call's success is an argument.
pub mod Kept
pub mod Default
mod Samples
use dankgo.Prelude.{not, Bool, true, false, Option, none, some, List, [], ◌∷◌, if◌then◌else◌}
use dankgo.Prelude.Text.{Bytes, eqb}
use dankgo.Prelude.Members.{GoMap, assign}
use dankgo.Desktop.Associations.{
  MimeAssociations, associations_from_data, merged_associations, set_default_associations,
}
use dankgo.Desktop.Render.{Keys, render_mimeapps}

-- Which calls succeed, and what a failing write leaves in the temporary file.
pub record Calls : Type 0 where
  pub read : Bool
  pub mkdir : Bool
  pub create : Bool
  pub write : Bool
  pub chmod : Bool
  pub close : Bool
  pub rename : Bool
  pub remove : Bool
  pub partial : Bytes

abbrev pub discarded : Calls → Bytes → Bytes → GoMap Bytes → GoMap Bytes
discarded calls tmp content files =
    if calls.remove then assign tmp none files else assign tmp (some content) files

-- The files behind the call, and whether there was no error; tmp is the name that os.CreateTemp gives.
unfoldable pub atomic_write_file : Calls → Bytes → Bytes → Bytes → GoMap Bytes → GoMap Bytes × Bool
unfolding eqb
atomic_write_file calls path tmp text files =
    if not calls.mkdir
    then (files, false)
    else if not calls.create
    then (files, false)
    else if not calls.write
    then (discarded calls tmp calls.partial files, false)
    else if not calls.chmod
    then (discarded calls tmp text files, false)
    else if not calls.close
    then (discarded calls tmp text files, false)
    else if not calls.rename
    then (discarded calls tmp text files, false)
    else (assign path (some text) (assign tmp none files), true)

abbrev pub content : Option Bytes → Bytes
content none = []
content (some text) = text

-- os.ReadFile, with nothing for a file that is not there; any other error is none.
abbrev pub read_original : Bool → Option Bytes → Option Bytes
read_original readable file = if readable then some (content file) else none

abbrev pub write_rendered : Calls → Bytes → Bytes → GoMap Bytes → Option Bytes → GoMap Bytes × Bool
write_rendered calls path tmp files none = (files, false)
write_rendered calls path tmp files (some text) = atomic_write_file calls path tmp text files

abbrev pub write_updated :
    Calls
    → (MimeAssociations → Keys)
    → (MimeAssociations → MimeAssociations)
    → Bytes
    → Bytes
    → GoMap Bytes
    → Option Bytes
    → GoMap Bytes × Bool
write_updated calls keys update path tmp files none = (files, false)
write_updated calls keys update path tmp files (some original) =
    let assoc = update (associations_from_data original) in
    write_rendered calls path tmp files (render_mimeapps original (keys assoc) assoc)

-- The keys of associations are an argument, as the maps are functions.
unfoldable pub write_user_mimeapps :
    Calls
    → (MimeAssociations → Keys)
    → (MimeAssociations → MimeAssociations)
    → Bytes
    → Bytes
    → GoMap Bytes
    → GoMap Bytes × Bool
unfolding atomic_write_file render_mimeapps associations_from_data
write_user_mimeapps calls keys update path tmp files =
    write_updated calls keys update path tmp files (read_original calls.read (files path))

unfoldable pub write_default_associations :
    Calls
    → (MimeAssociations → Keys)
    → Bytes
    → Bytes
    → List Bytes
    → Bytes
    → GoMap Bytes
    → GoMap Bytes × Bool
unfolding write_user_mimeapps set_default_associations
write_default_associations calls keys path tmp mimes id files =
    write_user_mimeapps calls keys (set_default_associations mimes id) path tmp files

abbrev pub read_one : Option Bytes → List MimeAssociations → List MimeAssociations
read_one none rest = rest
read_one (some text) rest = associations_from_data text ∷ rest

-- readAssociations of each path; a file that is not there is passed over, and one that is there can be read.
abbrev pub read_files : GoMap Bytes → List Bytes → List MimeAssociations
read_files files [] = []
read_files files (path ∷ paths) = read_one (files path) (read_files files paths)

-- mergedAssociations over the search paths.
unfoldable pub merged_files : GoMap Bytes → List Bytes → MimeAssociations
unfolding merged_associations associations_from_data
merged_files files paths = merged_associations (read_files files paths)
