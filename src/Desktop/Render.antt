-- ===== src/Desktop/Render.antt =====
-- desktop/mimeapps.go: how renderMimeapps rewrites a mimeapps.list file. A map is a list of its entries in
-- the order of their keys, since the code looks keys up and sorts those that it lists.
pub mod Fields
pub mod Reading
pub mod Agrees
pub mod Steps
pub mod Rounds
pub mod Completed
pub mod Every
pub mod Text
pub mod Fit
pub mod Values
pub mod RoundTrip
pub mod Extension
pub mod Unrelated
pub mod Verbatim
pub mod Kept
use dankgo.Prelude.{
  ℕ, suc, Bool, true, false, not, ◌&&◌, ◌||◌, Option, none, some, List, [], ◌∷◌, ◌++◌, map,
  if◌then◌else◌, ◌==◌, take, drop,
}
use dankgo.Prelude.Text.{Bytes, codes, eqb}
use dankgo.Prelude.Split.{join}
use dankgo.Prelude.Members.{GoMap, assign, contains}
use dankgo.Desktop.Groups.{
  is_empty, trim_space, index_byte, first_is, last_is, header_name, scan_lines,
}
use dankgo.Desktop.Associations.{MimeAssociations, associations_from_data}

abbrev pub Entries : Type 0
Entries = List (Bytes × Bytes)

abbrev pub is_unsafe : ℕ → Bool
is_unsafe c = c == 10 || (c == 13 || (c == 91 || c == 93))

abbrev pub is_safe_ini_field : Bytes → Bool
is_safe_ini_field [] = true
is_safe_ini_field (c ∷ cs) = not (is_unsafe c) && is_safe_ini_field cs

-- The keys of the three maps, in order.
pub record Keys : Type 0 where
  pub defaults : List Bytes
  pub added : List Bytes
  pub removed : List Bytes

abbrev pub entry_at_key : Bytes → Option Bytes → Entries → Entries
entry_at_key key none rest = rest
entry_at_key key (some value) rest = (key, value) ∷ rest

-- maps.Clone
abbrev pub clone : GoMap Bytes → List Bytes → Entries
clone m [] = []
clone m (k ∷ ks) = entry_at_key k (m k) (clone m ks)

abbrev pub flat : Option (List Bytes) → Option Bytes
flat none = none
flat (some list) = some (join 59 list ++ 59 ∷ [])

abbrev pub flatten : GoMap (List Bytes) → List Bytes → Entries
flatten m ks = clone (λ k. flat (m k)) ks

abbrev pub are_safe : Entries → Bool
are_safe [] = true
are_safe ((k, v) ∷ es) = (is_safe_ini_field k && is_safe_ini_field v) && are_safe es

abbrev pub group_entries : Keys → MimeAssociations → GoMap Entries
group_entries keys assoc =
    assign (codes "Default Applications") (some (clone assoc.defaults keys.defaults)) (
      assign (codes "Added Associations") (some (flatten assoc.added keys.added)) (
        assign (codes "Removed Associations") (some (flatten assoc.removed keys.removed))
          (λ name. none)))

-- Nothing for the error.
unfoldable pub managed_groups : Keys → MimeAssociations → Option (GoMap Entries)
unfolding eqb join
managed_groups keys assoc =
    if are_safe (clone assoc.defaults keys.defaults)
      && (are_safe (flatten assoc.added keys.added)
          && are_safe (flatten assoc.removed keys.removed))
    then some (group_entries keys assoc)
    else none

-- The variables of the loop: the lines out, the keys written in each group, and the group's name.
pub record Rendering : Type 0 where
  pub out : List Bytes
  pub written : Bytes → List Bytes
  pub current : Bytes

abbrev pub lookup : Entries → Bytes → Option Bytes
lookup [] key = none
lookup ((k, v) ∷ es) key = let rest = lookup es key in if eqb k key then some v else rest

abbrev pub missing : List Bytes → Entries → Entries
missing done [] = []
missing done ((k, v) ∷ es) =
    let rest = missing done es in if contains done k then rest else (k, v) ∷ rest

abbrev pub line_of : Bytes × Bytes → Bytes
line_of (k, v) = k ++ 61 ∷ v

abbrev pub keys_of : Entries → List Bytes
keys_of [] = []
keys_of ((k, v) ∷ es) = k ∷ keys_of es

abbrev pub mark : Bytes → List Bytes → (Bytes → List Bytes) → Bytes → List Bytes
mark group keys written g = if eqb group g then keys ++ written g else written g

-- The index behind the last line that is not blank.
abbrev pub insert_at : List Bytes → ℕ
insert_at [] = 0
insert_at (line ∷ lines) =
    let rest = insert_at lines in if rest == 0 && is_empty (trim_space line) then 0 else suc rest

abbrev pub inserted : List Bytes → List Bytes → List Bytes
inserted lines out = take (insert_at out) out ++ (lines ++ drop (insert_at out) out)

abbrev pub flushed : Bytes → Entries → Rendering → Rendering
flushed group [] r = r
flushed group (e ∷ es) r = record r {
  out = inserted (map line_of (e ∷ es)) r.out;
  written = mark group (keys_of (e ∷ es)) r.written;
}

abbrev pub flush_group : Bytes → Option Entries → Rendering → Rendering
flush_group group none r = r
flush_group group (some es) r = flushed group (missing (r.written group) es) r

-- The closure flushMissing.
unfoldable pub flush_missing : GoMap Entries → Bytes → Rendering → Rendering
unfolding eqb contains trim_space
flush_missing managed group r = flush_group group (managed group) r

abbrev pub append_line : Bytes → Rendering → Rendering
append_line line r = record r { out = r.out ++ line ∷ [] }

abbrev pub write_key : Bytes → Option Bytes → Rendering → Rendering
write_key key none r = r
write_key key (some value) r = if contains (r.written r.current) key then r else record r {
  out = r.out ++ line_of (key, value) ∷ [];
  written = mark r.current (key ∷ []) r.written;
}

abbrev pub key_line : Bytes → Bytes → Entries → Option ℕ → Rendering → Rendering
key_line line trimmed es none r = append_line line r
key_line line trimmed es (some eq) r =
    if eq == 0
    then append_line line r
    else write_key (trim_space (take eq trimmed)) (lookup es (trim_space (take eq trimmed))) r

abbrev pub managed_line : Bytes → Bytes → Option Entries → Rendering → Rendering
managed_line line trimmed none r = append_line line r
managed_line line trimmed (some es) r =
    if is_empty trimmed || first_is 35 trimmed
    then append_line line r
    else key_line line trimmed es (index_byte 61 trimmed) r

abbrev pub header_line : Bytes → Rendering → Rendering
header_line line r = record (append_line line r) { current = header_name (trim_space line) }

-- One round of the loop over the lines.
unfoldable pub render_line : GoMap Entries → Bytes → Rendering → Rendering
unfolding flush_missing index_byte trim_space contains eqb
render_line managed line r =
    if first_is 91 (trim_space line) && last_is 93 (trim_space line)
    then header_line line (flush_missing managed r.current r)
    else managed_line line (trim_space line) (managed r.current) r

abbrev pub render_lines : GoMap Entries → List Bytes → Rendering → Rendering
render_lines managed [] r = r
render_lines managed (line ∷ lines) r = render_lines managed lines (render_line managed line r)

-- An empty line, unless there is no line or the last one is blank.
abbrev pub separator : List Bytes → List Bytes
separator [] = []
separator (line ∷ []) = if is_empty (trim_space line) then [] else [] ∷ []
separator (line ∷ next ∷ lines) = separator (next ∷ lines)

abbrev pub group_header : Bytes → Bytes
group_header group = 91 ∷ group ++ 93 ∷ []

abbrev pub add_pending : Bytes → Entries → Rendering → Rendering
add_pending group [] r = r
add_pending group (e ∷ es) r = record r {
  out = r.out ++ (separator r.out ++ group_header group ∷ map line_of (e ∷ es));
  written = mark group (keys_of (e ∷ es)) r.written;
}

abbrev pub add_entries : Bytes → Option Entries → Rendering → Rendering
add_entries group none r = r
add_entries group (some es) r = add_pending group (missing (r.written group) es) r

-- One round of the loop over the three groups.
unfoldable pub add_group : GoMap Entries → Bytes → Rendering → Rendering
unfolding eqb contains trim_space
add_group managed group r = add_entries group (managed group) r

unfoldable pub render_groups : GoMap Entries → Rendering → Rendering
unfolding add_group
render_groups managed r = add_group managed (codes "Removed Associations") (
    add_group managed (codes "Added Associations")
      (add_group managed (codes "Default Applications") r))

unfoldable pub render_start : Rendering
render_start = record { out = []; written = λ _. []; current = [] }

-- The lines of the file that renderMimeapps writes.
unfoldable pub rendered : GoMap Entries → Bytes → List Bytes
unfolding scan_lines flush_missing render_line render_groups render_start
rendered managed original =
    let r = render_lines managed (scan_lines original) render_start in
    (render_groups managed (flush_missing managed r.current r)).out

abbrev pub text_of : List Bytes → Bytes
text_of [] = []
text_of (line ∷ lines) = join 10 (line ∷ lines) ++ 10 ∷ []

abbrev pub rendered_text : Option (GoMap Entries) → Bytes → Option Bytes
rendered_text none original = none
rendered_text (some managed) original = some (text_of (rendered managed original))

unfoldable pub render_mimeapps : Bytes → Keys → MimeAssociations → Option Bytes
unfolding managed_groups rendered join
render_mimeapps original keys assoc = rendered_text (managed_groups keys assoc) original
