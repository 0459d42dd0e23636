-- ===== src/Desktop/Written/Samples.antt =====
-- A mimeapps.list file with a comment and another group, in which a default is set.
use dankgo.Prelude.{
  ◌≡◌, refl, sym, subst, ap, true, false, none, some, List, [], ◌∷◌, arith, Bool-cases, inl, inr,
  if◌then◌else◌,
}
use dankgo.Prelude.Text.{Bytes, codes, eqb}
use dankgo.Prelude.Split.{split, join, has_suffix}
use dankgo.Prelude.Members.{GoMap, contains}
use dankgo.Desktop.Groups.{
  parse_groups, parse_line, scan_lines, trim_space, index_byte, base_key, split_list,
}
use dankgo.Desktop.Associations.{
  MimeAssociations, associations_from_data, set_default_associations, set_one, desktop_id,
}
use dankgo.Desktop.Render.{
  Keys, text_of, group_entries, render_mimeapps, managed_groups, rendered, flush_missing,
  render_line, render_groups, add_group, render_start,
}
use dankgo.Desktop.Chain.{canonical_mime, strip_mime_params, alias_of}
use dankgo.Desktop.Choice.{Desktop, get_default}
use dankgo.Desktop.Render.Fit.{AreFit, IsKey, IsId, IsOneId, AreIds}
use dankgo.Desktop.Render.RoundTrip.{associations_from_data-render_mimeapps}
use dankgo.Desktop.Render.Extension.{IsExtension}
use dankgo.Desktop.Render.Unrelated.{unrelated}
use dankgo.Desktop.Render.Kept.{IsNew, render_mimeapps-IsExtension}
use dankgo.Desktop.Search.{Environment, mimeapps_write_path, mimeapps_search_paths, add_path}
use dankgo.Desktop.Written.{
  Calls, write_user_mimeapps, write_default_associations, write_rendered, atomic_write_file,
  merged_files,
}
use dankgo.Desktop.Written.Kept.{wanted, Outcome, write_user_mimeapps-Outcome}
use dankgo.Desktop.Written.Default.{get_default-write_default_associations}

abbrev png : Bytes
png = codes "image/png"

abbrev mine : Bytes
mine = codes "# mine\n[Default Applications]\nimage/png=old.desktop\n\n[Other]\nk=v\n"

abbrev keys : Keys
keys = record { defaults = png ∷ []; added = png ∷ []; removed = [] }

abbrev update : MimeAssociations → MimeAssociations
update = set_default_associations (png ∷ []) (codes "new")

render_mimeapps-mine :
    render_mimeapps mine keys (wanted update (some mine))
    ≡ some (
        codes
          "# mine\n[Default Applications]\nimage/png=new.desktop\n\n[Other]\nk=v\n\n[Added Associations]\nimage/png=new.desktop;\n")
unfolding render_mimeapps managed_groups rendered flush_missing render_line render_groups add_group
    render_start set_default_associations set_one desktop_id has_suffix associations_from_data
    parse_groups parse_line scan_lines split join trim_space index_byte base_key split_list contains
    eqb
render_mimeapps-mine = refl

not_png : (k : Bytes) → contains (png ∷ []) k ≡ false → eqb png k ≡ false
unfolding contains
not_png k h = ground arith

listed_defaults : (k : Bytes) → eqb png k ≡ false → (wanted update (some mine)).defaults k ≡ none
unfolding set_default_associations set_one desktop_id has_suffix associations_from_data parse_groups
    parse_line scan_lines split trim_space index_byte base_key split_list contains eqb
listed_defaults k h = rw h refl

listed_added : (k : Bytes) → eqb png k ≡ false → (wanted update (some mine)).added k ≡ none
unfolding set_default_associations set_one desktop_id has_suffix associations_from_data parse_groups
    parse_line scan_lines split trim_space index_byte base_key split_list contains eqb
listed_added k h = rw h refl

listed_removed : (k : Bytes) → (wanted update (some mine)).removed k ≡ none
unfolding set_default_associations set_one desktop_id has_suffix associations_from_data parse_groups
    parse_line scan_lines split trim_space index_byte base_key split_list contains eqb
listed_removed k = elim (Bool-cases (eqb png k)) [ inl h ↦ rw h refl | inr h ↦ rw h refl ]

png-IsKey : IsKey png
png-IsKey = record {
  nonempty = refl;
  trimmed = record { first = refl; last = refl };
  no_equals = ground arith;
  no_comment = refl;
}

new-IsId : IsId (codes "new.desktop")
new-IsId = record {
  nonempty = refl;
  trimmed = record { first = refl; last = refl };
  no_semicolon = ground arith;
}

wanted_defaults : (wanted update (some mine)).defaults png ≡ some (codes "new.desktop")
unfolding set_default_associations set_one desktop_id has_suffix associations_from_data parse_groups
    parse_line scan_lines split trim_space index_byte base_key split_list contains eqb
wanted_defaults = refl

wanted_added : (wanted update (some mine)).added png ≡ some (codes "new.desktop" ∷ [])
unfolding set_default_associations set_one desktop_id has_suffix associations_from_data parse_groups
    parse_line scan_lines split trim_space index_byte base_key split_list contains eqb
wanted_added = refl

mine-AreFit : AreFit keys (wanted update (some mine))
mine-AreFit = record {
  defaults = record {
    listed = λ k h. listed_defaults k (not_png k h);
    fit = ((png-IsKey, subst IsOneId (sym wanted_defaults) new-IsId), tt);
  };
  added = record {
    listed = λ k h. listed_added k (not_png k h);
    fit = ((png-IsKey, subst AreIds (sym wanted_added) (new-IsId, tt)), tt);
  };
  removed = record { listed = λ k h. listed_removed k; fit = tt };
}

associations_from_data-render_mimeapps_example :
    associations_from_data (
      codes
        "# mine\n[Default Applications]\nimage/png=new.desktop\n\n[Other]\nk=v\n\n[Added Associations]\nimage/png=new.desktop;\n")
    ≡ wanted update (some mine)
associations_from_data-render_mimeapps_example =
    associations_from_data-render_mimeapps mine keys (wanted update (some mine)) _ mine-AreFit
      render_mimeapps-mine

render_mimeapps-IsExtension_example :
    (lines : List Bytes) × (codes
        "# mine\n[Default Applications]\nimage/png=new.desktop\n\n[Other]\nk=v\n\n[Added Associations]\nimage/png=new.desktop;\n"
      ≡ text_of lines)
    × IsExtension
        (IsNew (group_entries keys (wanted update (some mine))))
        (unrelated (group_entries keys (wanted update (some mine))) [] (scan_lines mine))
        lines
render_mimeapps-IsExtension_example =
    render_mimeapps-IsExtension mine keys (wanted update (some mine)) _ render_mimeapps-mine

abbrev path : Bytes
path = codes "/c/mimeapps.list"

abbrev tmp : Bytes
tmp = codes "/c/.mimeapps-1.tmp"

abbrev files : GoMap Bytes
files q = if eqb path q then some mine else none

abbrev calls : Calls
calls = record {
  read = true;
  mkdir = true;
  create = true;
  write = true;
  chmod = true;
  close = true;
  rename = true;
  remove = true;
  partial = [];
}

write_user_mimeapps-Outcome_example :
    Outcome
      (λ text. associations_from_data text ≡ wanted update (some mine))
      path
      files
      (write_user_mimeapps (record calls { rename = false }) (λ a. keys) update path tmp files)
    × ((write_user_mimeapps (record calls { rename = false }) (λ a. keys) update path tmp files).0
          tmp
        ≡ files tmp)
unfolding eqb
write_user_mimeapps-Outcome_example =
    write_user_mimeapps-Outcome (record calls { rename = false }) (λ a. keys) update path tmp tmp
      files refl mine-AreFit refl (inr (refl, refl))

abbrev env : Environment
env = record {
  config_home = codes "/c";
  data_home = codes "/d";
  config_dirs = codes "/x: /y";
  data_dirs = [];
}

mimeapps_search_paths-env :
    mimeapps_search_paths (join 47) env
    ≡ path
      ∷ codes "/x/mimeapps.list"
      ∷ codes "/y/mimeapps.list"
      ∷ codes "/d/applications/mimeapps.list"
      ∷ codes "/usr/local/share/applications/mimeapps.list"
      ∷ codes "/usr/share/applications/mimeapps.list"
      ∷ []
unfolding mimeapps_search_paths mimeapps_write_path add_path split join trim_space contains eqb
mimeapps_search_paths-env = refl

mimeapps_write_path-env : mimeapps_write_path (join 47) env ≡ path
unfolding mimeapps_write_path join
mimeapps_write_path-env = refl

abbrev after : GoMap Bytes
after =
    (write_default_associations calls (λ a. keys) (mimeapps_write_path (join 47) env) tmp (png ∷ [])
      (codes "new") files).0

abbrev desktop : Desktop
desktop = record {
  tables = record { aliases = []; subclasses = [] };
  merged = merged_files after (mimeapps_search_paths (join 47) env);
  cache = λ _. none;
  entries = [];
}

write_default_associations-mine :
    (write_default_associations calls (λ a. keys) path tmp (png ∷ []) (codes "new") files).1 ≡ true
unfolding write_default_associations write_user_mimeapps atomic_write_file eqb
write_default_associations-mine =
    ap (λ o. (write_rendered calls path tmp files o).1) render_mimeapps-mine

get_default-write_default_associations_example :
    get_default desktop png ≡ some (desktop_id (codes "new"))
unfolding mimeapps_search_paths mimeapps_write_path add_path split join trim_space contains eqb
get_default-write_default_associations_example =
    get_default-write_default_associations desktop (join 47) env calls (λ a. keys) tmp (png ∷ [])
      (codes "new") png files write_default_associations-mine refl refl refl mine-AreFit
      (inl refl, (inl refl, (inl refl, (inl refl, (inl refl, tt))))) tt refl refl
      (unfold canonical_mime strip_mime_params alias_of trim_space index_byte in refl)
