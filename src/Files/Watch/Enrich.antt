-- ===== src/Files/Watch/Enrich.antt =====
-- files/watch.go: enrichChunk and applyChanged, which complete entries after they were listed, and
-- the reads page and entry. The code runs each of these under the watch's lock.
use dankgo.Prelude.{
  ℕ, zero, suc, Bool, true, false, not, ◌&&◌, Option, none, some, List, [], ◌∷◌, if◌then◌else◌,
  get_elem?,
}
use dankgo.Prelude.Int.{ℤ, eqb_ℤ}
use dankgo.Prelude.Text.{Bytes, eqb}
use dankgo.Files.Entry.{Entry}
use dankgo.Files.Names.{index_of}
use dankgo.Files.Filter.{Patterns, filter_view}
use dankgo.Files.Mime.{needs_sniff, needs_desktop}
use dankgo.Files.Watch.Batch.{
  Kind, batch_kind, resync_kind, gone_kind, thumbnails_kind, Batch, Watch, empty_batch,
}
use dankgo.Files.Watch.Publish.{publish_locked}

-- The services that enrichChunk asks: MimeResolver.Sniff, Thumbs.Supports and Thumbs.Lookup at size
-- normal, iconIndex.best, and DesktopResolver.DesktopDisplay, which a builder may lack.
pub record Services : Type 0 where
  pub sniff : Bytes → Bytes
  pub supports : Bytes → Bool
  pub lookup : Bytes → ℤ → Option Bytes
  pub best : Entry → Bytes
  pub desktop : Option (Bytes → Option (Bytes × Bytes))

abbrev displayed : Entry → Option (Bytes × Bytes) → Entry
displayed e none = e
displayed e (some (name, icon)) =
    if eqb icon []
    then record e { display_name = name }
    else record e { display_name = name; icon_name = icon }

-- builder.display
unfoldable pub display : Services → Entry → Entry
unfolding needs_desktop
display s e = elim s.desktop [
  | none ↦ e
  | some resolve ↦ if needs_desktop e then displayed e (resolve e.path) else e
]

abbrev sniffed : Entry → Bytes → Entry
sniffed e mime = if eqb mime [] then e else record e { mime = mime }

abbrev found_thumbnail : Option Bytes → Bytes
found_thumbnail none = []
found_thumbnail (some path) = path

-- The loop body of enrichChunk: the updated entry.
unfoldable pub enriched : Services → Entry → Entry
unfolding needs_sniff display
enriched s e =
    let typed = if needs_sniff e.mime then sniffed e (s.sniff e.path) else e in
    let able = record typed { thumbnailable = s.supports typed.mime } in
    let thumbed =
      if able.thumbnailable
      then record able { thumbnail = found_thumbnail (s.lookup able.path able.mtime_ms) }
      else able in
    display s (record thumbed { icon_name = s.best thumbed })

abbrev same_bool : Bool → Bool → Bool
same_bool true b = b
same_bool false b = not b

unfoldable pub is_same : Entry → Entry → Bool
is_same a b =
    eqb a.mime b.mime
    && (eqb a.icon_name b.icon_name
        && (eqb a.thumbnail b.thumbnail
            && (same_bool a.thumbnailable b.thumbnailable && eqb a.display_name b.display_name)))

unfoldable pub enrich_entries : Services → List Entry → List Entry
unfolding is_same enriched
enrich_entries s [] = []
enrich_entries s (e ∷ es) =
    let rest = enrich_entries s es in
    let updated = enriched s e in if is_same updated e then rest else updated ∷ rest

-- w.entries[index] = e
unfoldable pub set_at : ℕ → Entry → List Entry → List Entry
set_at i e [] = []
set_at zero e (x ∷ xs) = e ∷ xs
set_at (suc i) e (x ∷ xs) = x ∷ set_at i e xs

-- The entry that takes the place of the old one, if the file has not changed in between.
abbrev pub replacement : Entry → Option Entry → Option Entry
replacement e none = none
replacement e (some old) =
    if eqb_ℤ old.mtime_ms e.mtime_ms then some (record e { name_key = old.name_key }) else none

abbrev pub entry_at : List Entry → Option ℕ → Option Entry
entry_at es none = none
entry_at es (some i) = get_elem? es i

abbrev pub put_at : List Entry → Option ℕ → Option Entry → List Entry
put_at es none r = es
put_at es (some i) none = es
put_at es (some i) (some e) = set_at i e es

abbrev pub prepend : Option Entry → List Entry → List Entry
prepend none es = es
prepend (some e) es = e ∷ es

-- The loop of applyChanged: the entries, and those that were applied.
unfoldable pub apply_loop : List Entry → List Entry → List Entry × List Entry
unfolding set_at
apply_loop [] entries = (entries, [])
apply_loop (e ∷ cs) entries =
    let at = index_of e.name entries in
    let new = replacement e (entry_at entries at) in
    let rest = apply_loop cs (put_at entries at new) in (rest.0, prepend new rest.1)

abbrev pub applied_batch : Kind → List Entry → Batch
applied_batch thumbnails_kind applied = record (empty_batch thumbnails_kind) {
  thumbnails = applied;
}
applied_batch batch_kind applied = record (empty_batch batch_kind) { changed = applied }
applied_batch resync_kind applied = record (empty_batch resync_kind) { changed = applied }
applied_batch gone_kind applied = record (empty_batch gone_kind) { changed = applied }

abbrev pub publish_applied : Watch → Kind → List Entry → Watch × List Batch
publish_applied w kind [] = (w, [])
publish_applied w kind (e ∷ es) = publish_locked w (applied_batch kind (e ∷ es))

module _ (g : Patterns) where
  -- With nothing changed the loop applies nothing and nothing is published, as by the early return.
  unfoldable pub apply_changed : Kind → List Entry → Watch → Watch × List Batch
  unfolding apply_loop
  apply_changed kind changed w =
      let r = apply_loop changed w.entries in
      publish_applied (record w { entries = r.0 }) kind
        (filter_view g r.1 w.include_hidden w.filters)

  -- A closed watch applies nothing.
  unfoldable pub enrich_chunk : Services → List Entry → Watch → Watch × List Batch
  unfolding enrich_entries apply_changed
  enrich_chunk s chunk w =
      if w.closed then (w, []) else apply_changed batch_kind (enrich_entries s chunk) w

-- w.entry
unfoldable pub entry : Bytes → Watch → Option Entry
entry name w = entry_at w.entries (index_of name w.entries)
