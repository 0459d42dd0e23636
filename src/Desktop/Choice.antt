-- ===== src/Desktop/Choice.antt =====
-- desktop/mime.go and desktop/entries.go: the application for a MIME type. The caches are as they were loaded
-- last, and the files of the application directories come with their identifiers, in the order of the walk.
pub mod Candidates
pub mod Agreement
pub mod Offered
pub mod Chosen
mod Samples
use dankgo.Prelude.{
  ℕ, Bool, true, false, not, ◌&&◌, ◌||◌, Option, none, some, List, [], ◌∷◌, ◌++◌, if◌then◌else◌,
  any,
}
use dankgo.Prelude.Text.{Bytes, codes, eqb}
use dankgo.Prelude.Split.{has_suffix}
use dankgo.Prelude.Members.{GoMap, contains, list_at}
use dankgo.Desktop.Groups.{Group, parse_groups, split_list, parse_bool, is_empty}
use dankgo.Desktop.Associations.{MimeAssociations, desktop_id}
use dankgo.Desktop.Chain.{Tables, canonical_mime, mime_chain}

pub record Entry : Type 0 where
  pub id : Bytes
  pub name : Bytes
  pub exec : Bytes
  pub icon : Bytes
  pub categories : List Bytes
  pub mime_types : List Bytes
  pub no_display : Bool
  pub hidden : Bool
  pub terminal : Bool

abbrev or_empty : Option Bytes → Bytes
or_empty none = []
or_empty (some v) = v

abbrev application : Bytes → Group → Option Entry
application id g =
    if is_empty (or_empty (g (codes "Type")))
      || eqb (or_empty (g (codes "Type"))) (codes "Application")
    then some (record {
      id = id;
      name = or_empty (g (codes "Name"));
      exec = or_empty (g (codes "Exec"));
      icon = or_empty (g (codes "Icon"));
      categories = split_list (or_empty (g (codes "Categories")));
      mime_types = split_list (or_empty (g (codes "MimeType")));
      no_display = parse_bool (or_empty (g (codes "NoDisplay")));
      hidden = parse_bool (or_empty (g (codes "Hidden")));
      terminal = parse_bool (or_empty (g (codes "Terminal")));
    })
    else none

abbrev from_group : Bytes → Option Group → Option Entry
from_group id none = none
from_group id (some g) = application id g

-- parseEntry past its cache, at the text of a file; none is no entry.
unfoldable pub parse_entry : Bytes → Bytes → Option Entry
unfolding parse_groups split_list parse_bool eqb
parse_entry text id = from_group id (parse_groups text (codes "Desktop Entry"))

abbrev with_parsed : Option Entry → List Entry → List Entry
with_parsed none es = es
with_parsed (some e) es = e ∷ es

abbrev entries_past : List Bytes → List (Bytes × Bytes) → List Entry
entries_past seen [] = []
entries_past seen ((id, text) ∷ files) =
    let rest = entries_past (if contains seen id then seen else id ∷ seen) files in
    if contains seen id then rest else with_parsed (parse_entry text id) rest

-- AllEntries past its cache, at the identifiers and texts of the desktop files.
unfoldable pub all_entries : List (Bytes × Bytes) → List Entry
unfolding parse_entry contains
all_entries files = entries_past [] files

abbrev entry_with : Bytes → List Entry → Option Entry
entry_with id [] = none
entry_with id (e ∷ es) = if eqb e.id id then some e else entry_with id es

unfoldable pub entry_by_id : List Entry → Bytes → Option Entry
unfolding eqb desktop_id
entry_by_id entries id = entry_with (desktop_id id) entries

unfoldable pub entry_supports_mime : Tables → Entry → List Bytes → Bool
unfolding contains canonical_mime
entry_supports_mime t e chain =
    any (λ m. contains chain (canonical_mime t m) || contains chain m) e.mime_types

-- What GetDefault and AppsForMime read.
pub record Desktop : Type 0 where
  pub tables : Tables
  pub merged : MimeAssociations
  pub cache : GoMap (List Bytes)
  pub entries : List Entry

abbrev pub or_first : Option Bytes → Option Bytes → Option Bytes
or_first (some id) rest = some id
or_first none rest = rest

abbrev pub removed_at : Desktop → Bytes → List Bytes
removed_at d m = list_at (d.merged.removed m)

-- The first that is not removed.
unfoldable pub first_kept : List Bytes → List Bytes → Option Bytes
unfolding contains
first_kept removed [] = none
first_kept removed (id ∷ ids) = if contains removed id then first_kept removed ids else some id

abbrev kept_default : List Bytes → Option Bytes → Option Bytes
kept_default removed none = none
kept_default removed (some id) = if contains removed id then none else some id

unfoldable pub default_in : Desktop → List Bytes → Option Bytes
unfolding contains
default_in d [] = none
default_in d (m ∷ ms) =
    or_first (kept_default (removed_at d m) (d.merged.defaults m)) (default_in d ms)

-- The first kept one of each type's list, in the order of the chain.
unfoldable pub listed_in : Desktop → GoMap (List Bytes) → List Bytes → Option Bytes
unfolding first_kept
listed_in d lists [] = none
listed_in d lists (m ∷ ms) =
    or_first (first_kept (removed_at d m) (list_at (lists m))) (listed_in d lists ms)

unfoldable pub supporting : Desktop → Bytes → List Entry → Option Bytes
unfolding contains entry_supports_mime
supporting d m [] = none
supporting d m (e ∷ es) =
    let rest = supporting d m es in
    if e.hidden || e.no_display
    then rest
    else if contains (removed_at d m) e.id
    then rest
    else if entry_supports_mime d.tables e (m ∷ [])
    then some e.id
    else rest

unfoldable pub entry_in : Desktop → List Bytes → Option Bytes
unfolding supporting
entry_in d [] = none
entry_in d (m ∷ ms) = or_first (supporting d m d.entries) (entry_in d ms)

-- GetDefault; none is the empty text that it returns at the end.
unfoldable pub get_default : Desktop → Bytes → Option Bytes
unfolding mime_chain default_in listed_in entry_in
get_default d mime =
    let chain = mime_chain d.tables mime in
    or_first (default_in d chain) (
      or_first (listed_in d d.merged.added chain)
        (or_first (listed_in d d.cache chain) (entry_in d chain)))

-- The removed applications of the whole chain.
unfoldable pub removed_in : Desktop → List Bytes → Bytes → Bool
unfolding contains
removed_in d [] id = false
removed_in d (m ∷ ms) id = contains (removed_at d m) id || removed_in d ms id

abbrev pub add : (Bytes → Bool) → Bytes → List Bytes → List Bytes
add removed id out = if is_empty id || (removed id || contains out id) then out else out ++ id ∷ []

unfoldable pub add_all : (Bytes → Bool) → List Bytes → List Bytes → List Bytes
unfolding contains
add_all removed [] out = out
add_all removed (id ∷ ids) out = add_all removed ids (add removed id out)

abbrev pub default_first : Option Bytes → List Bytes → List Bytes
default_first none ids = ids
default_first (some id) ids = id ∷ ids

abbrev pub associated : Desktop → List Bytes → List Bytes
associated d [] = []
associated d (m ∷ ms) =
    default_first (d.merged.defaults m) (list_at (d.merged.added m)) ++ associated d ms

abbrev pub cached : Desktop → List Bytes → List Bytes
cached d [] = []
cached d (m ∷ ms) = list_at (d.cache m) ++ cached d ms

unfoldable pub shown : Desktop → List Bytes → List Entry → List Bytes
unfolding entry_supports_mime
shown d chain [] = []
shown d chain (e ∷ es) =
    let rest = shown d chain es in
    if e.hidden then rest else if entry_supports_mime d.tables e chain then e.id ∷ rest else rest

-- AppsForMime: the three loops call add in this order.
unfoldable pub apps_for_mime : Desktop → Bytes → List Bytes
unfolding mime_chain removed_in add_all shown
apps_for_mime d mime =
    let chain = mime_chain d.tables mime in
    add_all (removed_in d chain) (associated d chain ++ (cached d chain ++ shown d chain d.entries))
      []

abbrev with_handler : Option Entry → List Entry → List Entry
with_handler none es = es
with_handler (some e) es = if e.hidden || (e.no_display || e.terminal) then es else e ∷ es

abbrev handlers_among : List Entry → List Bytes → List Entry
handlers_among entries [] = []
handlers_among entries (id ∷ ids) =
    with_handler (entry_by_id entries id) (handlers_among entries ids)

unfoldable pub handlers_for_mime : Desktop → Bytes → List Entry
unfolding apps_for_mime entry_by_id
handlers_for_mime d mime = handlers_among d.entries (apps_for_mime d mime)
