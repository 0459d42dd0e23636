-- ===== src/Files/Watch/Flush.antt =====
-- files/watch.go: flush, resync and applyChanged, the operations that change a listing.
use dankgo.Prelude.{ℕ, Bool, Option, none, some, List, [], ◌∷◌, ◌++◌, if◌then◌else◌, get_elem?}
use dankgo.Prelude.Int.{eqb_ℤ}
use dankgo.Prelude.Text.{Bytes}
use dankgo.Files.Entry.{Entry}
use dankgo.Files.Names.{names_of, index_of, delete_at}
use dankgo.Files.Filter.{Patterns, filter_view}
use dankgo.Files.Mime.{unenriched}
use dankgo.Files.Sort.Compare.{SortSpec}
use dankgo.Files.Sort.Listing.{sort_entries, insert_sorted}
use dankgo.Files.Watch.Batch.{resync_kind, Batch, Watch, empty_batch}
use dankgo.Files.Watch.Diff.{diff}
use dankgo.Files.Watch.Publish.{publish_locked, publish_gone}

-- What builder.entry returns for a name: fs.ErrNotExist, another error, or the entry.
pub data Found : Type 0 where
  absent : Found
  failed : Found
  found : Entry → Found

unfoldable pub carry_thumbnail : Entry → Entry → Bytes
carry_thumbnail old fresh = if eqb_ℤ old.mtime_ms fresh.mtime_ms then old.thumbnail else []

-- resortAround, after the entry at the index has been replaced by this one.
unfoldable pub resort_around : SortSpec → ℕ → Entry → List Entry → List Entry
resort_around spec index entry entries = insert_sorted (delete_at index entries) entry spec

-- The entries of the watch and the fresh entries that go on to be enriched.
abbrev pub Listing : Type 0
Listing = List Entry × List Entry

abbrev pub touch_found : SortSpec → Entry → Listing → Option ℕ → Listing
touch_found spec e (entries, fresh) none = (insert_sorted entries e spec, fresh ++ e ∷ [])
touch_found spec e (entries, fresh) (some index) = elim (get_elem? entries index) [
  | none ↦ (entries, fresh)
  | some old ↦
      let e' = record e { thumbnail = carry_thumbnail old e } in
      (resort_around spec index e' entries, fresh ++ e' ∷ [])
]

abbrev pub touch_absent : Listing → Option ℕ → Listing
touch_absent (entries, fresh) none = (entries, fresh)
touch_absent (entries, fresh) (some index) = (delete_at index entries, fresh)

-- The body of the loop in flush, for one name.
unfoldable pub touch : SortSpec → Found → Bytes → Listing → Listing
unfolding resort_around carry_thumbnail
touch spec absent name l = touch_absent l (index_of name l.0)
touch spec failed name l = l
touch spec (found e) name l = touch_found spec e l (index_of name l.0)

unfoldable pub touch_all : SortSpec → (Bytes → Found) → List Bytes → Listing → Listing
touch_all spec look [] l = l
touch_all spec look (name ∷ names) l = touch_all spec look names (touch spec (look name) name l)

module _ (g : Patterns) where
  abbrev pub view : Watch → List Entry
  view w = filter_view g w.entries w.include_hidden w.filters

  -- The directory still stands: `look` is what builder.entry returns for each name.
  unfoldable pub flush_names :
      (Bytes → Found) → List Bytes → Watch → Watch × List Batch × List Entry
  flush_names look names w =
      let listing = touch_all w.spec look names (w.entries, []) in
      let w' = record w { entries = listing.0 } in
      let published = publish_locked w' (diff (names_of (view w)) names (view w')) in
      (published.0, published.1, unenriched listing.1)

  -- `standing` is whether os.Stat finds the directory. The last part is what is handed to enrich.
  unfoldable pub flush :
      Bool → (Bytes → Found) → List Bytes → Watch → Watch × List Batch × List Entry
  unfolding flush_names
  flush standing look names w =
      let gone = publish_gone w in
      if standing then flush_names look names w else (gone.0, gone.1, [])

  -- `none` is a failed read of the directory.
  unfoldable pub resync : Option (List Entry) → Watch → Watch × List Batch × List Entry
  resync none w = let gone = publish_gone w in (gone.0, gone.1, [])
  resync (some entries) w =
      let sorted = sort_entries entries w.spec in
      let published = publish_locked (record w { entries = sorted }) (empty_batch resync_kind) in
      (published.0, published.1, unenriched sorted)
