-- ===== src/Desktop/Choice/Samples.antt =====
-- An application for a MIME type from a mimeapps.list file and two desktop files.
use dankgo.Prelude.{◌≡◌, refl, not, ◌&&◌, ◌||◌, true, false, none, some, List, [], ◌∷◌}
use dankgo.Prelude.Text.{Bytes, codes, eqb}
use dankgo.Prelude.Split.{split}
use dankgo.Prelude.Members.{contains, AreDistinct}
use dankgo.Desktop.Groups.{
  is_empty, parse_groups, parse_line, scan_lines, trim_space, index_byte, base_key, split_list,
  parse_bool,
}
use dankgo.Desktop.Associations.{
  MimeAssociations, associations_from_data, merged_associations, merge_all, merge, new_associations,
}
use dankgo.Desktop.Chain.{
  Tables, mime_chain, canonical_mime, strip_mime_params, alias_of, chain_from, walk, add_parents,
  parents_of,
}
use dankgo.Desktop.Choice.{
  Desktop, parse_entry, all_entries, first_kept, default_in, get_default, removed_in, apps_for_mime,
}
use dankgo.Desktop.Choice.Agreement.{get_default-apps_for_mime}
use dankgo.Desktop.Choice.Offered.{
  is_associated, is_cached, is_entry, is_removed, apps_for_mime-contains,
}

abbrev png : Bytes
png = codes "image/png"

abbrev tables : Tables
tables = record { aliases = []; subclasses = [] }

abbrev user_text : Bytes
user_text =
    codes
      "[Default Applications]\nimage/png=old.desktop;other.desktop;\n[Removed Associations]\nimage/png=new.desktop;bad.desktop;\n"

abbrev entry_text : Bytes
entry_text =
    codes
      "[Desktop Entry]\nType=Application\nName=Eog\nName[de]=Auge\nMimeType=image/png;image/gif;\n"

parse_entry_eog :
    all_entries ((codes "eog.desktop", entry_text) ∷ [])
    ≡ record {
      id = codes "eog.desktop";
      name = codes "Eog";
      exec = [];
      icon = [];
      categories = [];
      mime_types = png ∷ codes "image/gif" ∷ [];
      no_display = false;
      hidden = false;
      terminal = false;
    }
      ∷ []
unfolding all_entries parse_entry parse_groups parse_line scan_lines split trim_space index_byte
    base_key split_list parse_bool eqb contains
parse_entry_eog = refl

abbrev desktop : List MimeAssociations → Desktop
desktop files = record {
  tables = tables;
  merged = merged_associations files;
  cache = λ _. none;
  entries = all_entries ((codes "eog.desktop", entry_text) ∷ []);
}

abbrev read_files : List MimeAssociations
read_files = associations_from_data user_text ∷ []

get_default-png : get_default (desktop read_files) png ≡ some (codes "old.desktop")
unfolding get_default default_in first_kept mime_chain chain_from walk parents_of add_parents
    canonical_mime strip_mime_params alias_of trim_space index_byte contains eqb merged_associations
    merge_all merge new_associations associations_from_data parse_groups parse_line scan_lines split
    base_key split_list
get_default-png = refl

get_default-apps_for_mime_example :
    contains (apps_for_mime (desktop read_files) png) (codes "old.desktop") ≡ true
get_default-apps_for_mime_example =
    get_default-apps_for_mime (desktop read_files) png (codes "old.desktop") get_default-png refl (
      unfold removed_in mime_chain chain_from walk parents_of add_parents canonical_mime
        strip_mime_params alias_of trim_space index_byte contains eqb merged_associations merge_all
        merge new_associations associations_from_data parse_groups parse_line scan_lines split
        base_key split_list in
      refl)

apps_for_mime-contains_example :
    AreDistinct (apps_for_mime (desktop read_files) png)
    × ((x : Bytes)
        → contains (apps_for_mime (desktop read_files) png) x ≡ (
            (is_associated (desktop read_files) (mime_chain tables png) x
              || (is_cached (desktop read_files) (mime_chain tables png) x
                  || is_entry (desktop read_files) (mime_chain tables png) x))
            && (not (is_empty x)
                && not (is_removed (desktop read_files) (mime_chain tables png) x))))
apps_for_mime-contains_example = apps_for_mime-contains (desktop read_files) png
