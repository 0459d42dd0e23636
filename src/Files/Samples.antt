-- ===== src/Files/Samples.antt =====
-- Concrete listings and watches: the theorems of the package files at inputs that run their code.
use dankgo.Prelude.{
  ℕ, ◌≡◌, refl, true, false, some, List, [], ◌∷◌, arith, if◌then◌else◌, keep, length, ◌-◌, ◌+◌,
}
use dankgo.Prelude.Int.{pos}
use dankgo.Prelude.Text.{Bytes, eqb, eqb_iff, codes}
use dankgo.Files.Entry.{Entry}
use dankgo.Files.Names.{has, names_of, IsUnique}
use mathlib.Core.List.{Perm}
use dankgo.Files.Sort.Described.{AreInPlace, sort_entries-AreInPlace}
use dankgo.Files.Filter.{Patterns, filter, parse_loop, parse_filters, filter_view}
use dankgo.Files.Filter.Shown.{is_shown, filter_view-parse_filters}
use dankgo.Files.Sort.Compare.{SortSpec, sort_mtime, compare_entries}
use dankgo.Files.Sort.Sorted.{sort_stable}
use dankgo.Files.Sort.Listing.{sort_entries, insert_sorted, InOrder, insert_sorted-sort_entries}
use dankgo.Files.Watch.Batch.{Watch, replay, resync_kind, empty_batch}
use dankgo.Files.Watch.Diff.{diff}
use dankgo.Files.Watch.Publish.{publish_locked, attach}
use dankgo.Files.Watch.Flush.{Found, absent, found, touch_all, view, flush}
use dankgo.Files.Watch.Open.{ListOptions, open_watch, opened}
use dankgo.Files.Watch.Ordered.{touch_all-InOrder}
use dankgo.Files.Watch.Numbered.{IsNumbered, Numbered, Passes, handed_over, stream-IsNumbered}
use dankgo.Files.Watch.Session.{Replica, receive_all, Shows}
use dankgo.Files.Watch.Live.{Run, start, next, flushed, attached, Run-Shows}
use dankgo.Files.Watch.Replay.View.{replay-diff}
use dankgo.Files.Watch.Flushed.{IsNamed}

abbrev file : Bytes → ℕ → Entry
file name mtime = record {
  name = name;
  path = codes "/d/";
  is_dir = false;
  is_symlink = false;
  symlink_target = [];
  symlink_broken = false;
  size = pos 1;
  mtime_ms = pos mtime;
  ctime_ms = pos mtime;
  atime_ms = pos mtime;
  mode = [];
  owner = [];
  group = [];
  hidden = false;
  executable = false;
  extension = [];
  mime = codes "image/png";
  icon_name = [];
  thumbnail = [];
  thumbnailable = false;
  unreadable = false;
  display_name = [];
  untrusted = false;
  name_key = name;
}

abbrev by_mtime : SortSpec
by_mtime = record { key = sort_mtime; desc = false; dirs_first = true }

abbrev a : Entry
a = file (codes "a") 1

abbrev b : Entry
b = file (codes "b") 2

abbrev c : Entry
c = file (codes "c") 3

abbrev d : Entry
d = file (codes "d") 4

-- The file "a" after a write.
abbrev a' : Entry
a' = file (codes "a") 5

abbrev plain : Patterns
plain = record { to_lower = λ s. s; trim_space = λ s. s; match = λ p s. some (eqb p s) }

-- "a" was written and "c" was deleted.
abbrev look : Bytes → Found
look n = if eqb n (codes "a") then found a' else absent

sorted_names :
    names_of (sort_entries (c ∷ a ∷ b ∷ []) by_mtime) ≡ codes "a" ∷ codes "b" ∷ codes "c" ∷ []
unfolding sort_entries sort_stable compare_entries names_of
sorted_names = refl

abbrev newest_first : SortSpec
newest_first = record { key = sort_mtime; desc = true; dirs_first = true }

sort_entries-AreInPlace_example :
    AreInPlace newest_first (sort_entries (c ∷ a ∷ b ∷ []) newest_first)
    × Perm (sort_entries (c ∷ a ∷ b ∷ []) newest_first) (c ∷ a ∷ b ∷ [])
sort_entries-AreInPlace_example = sort_entries-AreInPlace (c ∷ a ∷ b ∷ []) newest_first

in_order : InOrder by_mtime (a ∷ c ∷ [])
unfolding compare_entries
in_order = ((refl, tt), (tt, tt))

insert_sorted-sort_entries_example :
    insert_sorted (a ∷ c ∷ []) b by_mtime ≡ sort_entries (b ∷ a ∷ c ∷ []) by_mtime
insert_sorted-sort_entries_example = insert_sorted-sort_entries (a ∷ c ∷ []) b by_mtime in_order

a_only : parse_filters plain (codes "a" ∷ [] ∷ []) ≡ filter (codes "a" ∷ [])
unfolding parse_filters parse_loop eqb
a_only = refl

filter_view-parse_filters_example :
    filter_view plain (a ∷ b ∷ []) false (codes "a" ∷ [])
    ≡ keep (is_shown plain (codes "a" ∷ [] ∷ []) false) (a ∷ b ∷ [])
filter_view-parse_filters_example =
    filter_view-parse_filters plain (codes "a" ∷ [] ∷ []) (codes "a" ∷ []) (a ∷ b ∷ []) false a_only

touch_all-InOrder_example :
    InOrder by_mtime (touch_all by_mtime look (codes "a" ∷ codes "c" ∷ []) (a ∷ c ∷ [], [])).0
touch_all-InOrder_example =
    touch_all-InOrder by_mtime look (codes "a" ∷ codes "c" ∷ []) (a ∷ c ∷ [], []) in_order

abbrev before : List Entry
before = a ∷ b ∷ c ∷ []

abbrev now : List Entry
now = b ∷ d ∷ a' ∷ []

abbrev touched : List Bytes
touched = codes "a" ∷ codes "c" ∷ codes "d" ∷ []

-- "a" moves to the end, "c" is gone, "d" is new.
replay-diff_example : replay (diff (names_of before) touched now) before ≡ now
unfolding eqb has
replay-diff_example =
    replay-diff before now touched ((refl, (refl, tt)), ((refl, tt), (tt, tt)))
      ((refl, (refl, tt)), ((refl, tt), (tt, tt))) refl

abbrev options : ListOptions
options = record { include_hidden = false; filters = []; sort = by_mtime; limit = 0; cursor = [] }

abbrev w0 : Watch
w0 = opened (codes "w1") (codes "files:w1") (codes "/d") options false before

abbrev w1 : Watch
w1 = (flush plain true look touched w0).0

abbrev w2 : Watch
w2 = (attach w1).0

-- What the client shows after the flush, and after it has attached.
abbrev shown1 : Replica
shown1 = receive_all (some (view plain w0)) (flush plain true look touched w0).1

abbrev shown2 : Replica
shown2 = receive_all shown1 (attach w1).1

look-IsNamed : IsNamed look
look-IsNamed n e h = ground (arith, eqb_iff n (codes "a"))

session : Run plain w0 (some (view plain w0)) w2 shown2
session = next (next start (flushed true look touched w0 look-IsNamed) refl) (attached w1) refl

opened_w0 :
    open_watch (codes "w1") (codes "files:w1") (codes "/d") options false (some before) ≡ some w0
unfolding open_watch
opened_w0 = refl

subscribed_w2 : w2.subscribed ≡ true
unfolding attach
subscribed_w2 = ground arith

before-IsUnique : IsUnique before
unfolding eqb
before-IsUnique = ((refl, (refl, tt)), ((refl, tt), (tt, tt)))

Run-Shows_example : Shows (view plain w2) shown2
Run-Shows_example =
    Run-Shows plain (codes "w1") (codes "files:w1") (codes "/d") options false before w0 w2 shown2
      before-IsUnique opened_w0 session subscribed_w2

w0-IsNumbered : IsNumbered w0
unfolding opened
w0-IsNumbered = record {
  held = λ _. tt;
  counted = omega arith;
  fits = omega arith;
  drained = λ _. refl;
}

stream-IsNumbered_example :
    let sent = publish_locked w0 (empty_batch resync_kind) in
    let attached = attach w0 in
    (IsNumbered sent.0
      × Numbered w0.seq sent.1
      × (w0.subscribed ≡ true → sent.0.seq ≡ w0.seq + length sent.1))
    × Passes w0 (empty_batch resync_kind) sent
    × (IsNumbered attached.0
        × Numbered (attached.0.seq - length attached.1) attached.1
        × (attached.1 ≡ handed_over w0)
        × (attached.0.pending ≡ []))
stream-IsNumbered_example = stream-IsNumbered w0 (empty_batch resync_kind) w0-IsNumbered
