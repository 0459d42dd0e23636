-- ===== src/Files/Watch/Open.antt =====
-- files/watch.go: openWatch, from the entries that readDir returns. `none` is its error, after which
-- there is no watch; the identifier and the topic come from Service.register.
use mathlib.Core.Option.{some-injective}
use dankgo.Prelude.{ℕ, ◌≡◌, ◌∙◌, Bool, false, Option, none, some, List, [], ◌∷◌, arith, Ordering}
use dankgo.Prelude.Text.{Bytes, eqb}
use dankgo.Files.Entry.{Entry}
use dankgo.Files.Names.{Lacks, IsUnique}
use dankgo.Files.Names.Lookup.{eqb_comm}
use dankgo.Files.Sort.Compare.{SortSpec, compare_entries}
use dankgo.Files.Sort.Sorted.{insert_stable, sort_stable}
use dankgo.Files.Sort.Listing.{sort_entries}
use dankgo.Files.Watch.Batch.{Watch}

pub record ListOptions : Type 0 where
  pub include_hidden : Bool
  pub filters : List Bytes
  pub sort : SortSpec
  pub limit : ℕ
  pub cursor : Bytes

-- The watch that openWatch builds.
unfoldable pub opened : Bytes → Bytes → Bytes → ListOptions → Bool → List Entry → Watch
opened id topic path opts attach_on_open entries = record {
  id = id;
  topic = topic;
  path = path;
  closed = false;
  entries = sort_entries entries opts.sort;
  spec = opts.sort;
  include_hidden = opts.include_hidden;
  filters = opts.filters;
  seq = 0;
  subscribed = attach_on_open;
  pending = [];
  dropped = false;
}

unfoldable pub open_watch :
    Bytes → Bytes → Bytes → ListOptions → Bool → Option (List Entry) → Option Watch
unfolding opened
open_watch id topic path opts attach_on_open none = none
open_watch id topic path opts attach_on_open (some entries) =
    some (opened id topic path opts attach_on_open entries)

pub open_watch-some :
    (id topic path : Bytes) (opts : ListOptions) (attach_on_open : Bool) (entries : List Entry)
    (w : Watch)
    → open_watch id topic path opts attach_on_open (some entries) ≡ some w
    → opened id topic path opts attach_on_open entries ≡ w
unfolding open_watch
open_watch-some id topic path opts attach_on_open entries w h = some-injective _ _ h

module _ (c : Entry → Entry → Ordering) where
  insert_stable-Lacks :
      (n : Bytes) (e : Entry) (es : List Entry)
      → eqb e.name n ≡ false
      → Lacks n es
      → Lacks n (insert_stable c e es)
  unfolding insert_stable
  insert_stable-Lacks n e [] h l = (h, tt)
  insert_stable-Lacks n e (x ∷ xs) h (l, ls) = ground (arith, insert_stable-Lacks n e xs h ls)

  insert_stable-IsUnique :
      (e : Entry) (es : List Entry)
      → Lacks e.name es
      → IsUnique es
      → IsUnique (insert_stable c e es)
  unfolding insert_stable
  insert_stable-IsUnique e [] l u = (tt, tt)
  insert_stable-IsUnique e (x ∷ xs) (l, ls) (u, us) = ground (
    arith,
    insert_stable-IsUnique e xs ls us,
    insert_stable-Lacks x.name e xs (eqb_comm e.name x.name ∙ l) u,
    eqb_comm e.name x.name,
  )

  sort_stable-Lacks : (n : Bytes) (es : List Entry) → Lacks n es → Lacks n (sort_stable c es)
  unfolding sort_stable
  sort_stable-Lacks n [] l = tt
  sort_stable-Lacks n (x ∷ xs) (l, ls) =
      insert_stable-Lacks n x (sort_stable c xs) l (sort_stable-Lacks n xs ls)

  sort_stable-IsUnique : (es : List Entry) → IsUnique es → IsUnique (sort_stable c es)
  unfolding sort_stable
  sort_stable-IsUnique [] u = tt
  sort_stable-IsUnique (x ∷ xs) (l, u) =
      insert_stable-IsUnique x (sort_stable c xs) (sort_stable-Lacks x.name xs l)
        (sort_stable-IsUnique xs u)

-- Sorting keeps the names unique.
pub sort_entries-IsUnique :
    (es : List Entry) (spec : SortSpec) → IsUnique es → IsUnique (sort_entries es spec)
unfolding sort_entries
sort_entries-IsUnique es spec = sort_stable-IsUnique (compare_entries spec) es
