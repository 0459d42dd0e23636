-- ===== src/Files/Watch/Batch.antt =====
-- files/watch.go: the type batch, the state of a watch, and what a client does with a batch.
use dankgo.Prelude.{ℕ, Bool, none, some, List, [], ◌∷◌, if◌then◌else◌}
use dankgo.Prelude.Text.{Bytes, eqb}
use dankgo.Files.Entry.{Entry}
use dankgo.Files.Names.{index_of, delete_at}
use dankgo.Files.Sort.Compare.{SortSpec}
use dankgo.Files.Sort.Sorted.{insert_at}

pub data Kind : Type 0 where
  batch_kind resync_kind gone_kind thumbnails_kind : Kind

pub record Batch : Type 0 where
  pub watch_id : Bytes
  pub kind : Kind
  pub seq : ℕ
  pub added : List Entry
  pub added_at : List ℕ
  pub changed : List Entry
  pub removed : List Bytes
  pub thumbnails : List Entry

-- batch{Kind: kind}
abbrev pub empty_batch : Kind → Batch
empty_batch kind = record {
  watch_id = [];
  kind = kind;
  seq = 0;
  added = [];
  added_at = [];
  changed = [];
  removed = [];
  thumbnails = [];
}

-- The fields of `watch` that its operations read and write; `closed` is the closed channel `done`.
pub record Watch : Type 0 where
  pub id : Bytes
  pub topic : Bytes
  pub path : Bytes
  pub closed : Bool
  pub entries : List Entry
  pub spec : SortSpec
  pub include_hidden : Bool
  pub filters : List Bytes
  pub seq : ℕ
  pub subscribed : Bool
  pub pending : List Batch
  pub dropped : Bool

-- The client of a batch: it removes by name first, then takes the changed entries by name, then
-- inserts each added entry at its index, in order.
unfoldable pub remove_name : Bytes → List Entry → List Entry
remove_name n es = elim (index_of n es) [ none ↦ es | some i ↦ delete_at i es ]

unfoldable pub remove_names : List Bytes → List Entry → List Entry
unfolding remove_name
remove_names [] es = es
remove_names (n ∷ ns) es = remove_names ns (remove_name n es)

-- The entry of this name, if there is one, else the given one.
unfoldable pub update_from : List Entry → Entry → Entry
update_from [] x = x
update_from (c ∷ cs) x = let rest = update_from cs x in if eqb c.name x.name then c else rest

unfoldable pub update_all : List Entry → List Entry → List Entry
unfolding update_from
update_all changed [] = []
update_all changed (x ∷ xs) = update_from changed x ∷ update_all changed xs

unfoldable pub insert_all : List Entry → List ℕ → List Entry → List Entry
insert_all [] is es = es
insert_all (a ∷ as') [] es = es
insert_all (a ∷ as') (i ∷ is) es = insert_all as' is (insert_at i a es)

unfoldable pub replay : Batch → List Entry → List Entry
unfolding remove_names update_all insert_all
replay b es = insert_all b.added b.added_at (update_all b.changed (remove_names b.removed es))
