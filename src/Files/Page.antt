-- ===== src/Files/Page.antt =====
-- files/list.go: pages of a listing and the cursors that continue them. The limit of a request that is
-- not positive is 0 here. `none` is a panic of the slice expression.
pub mod Follow
mod Samples
use dankgo.Prelude.{
  ℕ, zero, suc, ◌+◌, ◌-◌, min, Bool, true, false, Option, none, some, List, [], ◌∷◌, ◌++◌,
  if◌then◌else◌, leb, ltb, ◌==◌, length, take, drop, get_elem?,
}
use dankgo.Prelude.Int.{ℤ, pos, negsuc}
use dankgo.Prelude.Text.{Bytes, eqb}
use dankgo.Prelude.Decimal.{itoa, atoi, cut_colon}
use dankgo.Files.Entry.{Entry}
use dankgo.Files.Names.{index_of}

abbrev pub default_page_size : ℕ
default_page_size = 500

pub record Page : Type 0 where
  pub entries : List Entry
  pub total : ℕ
  pub cursor : Bytes

abbrev pub is_named : Bytes → Option Entry → Bool
is_named name none = false
is_named name (some e) = eqb e.name name

abbrev pub behind : Option ℕ → ℤ → ℤ
behind none start = start
behind (some i) start = pos (suc i)

abbrev pub resume_from : List Entry → Bytes → Option ℤ → ℤ
resume_from entries name none = pos 0
resume_from entries name (some (pos i)) =
    if is_named name (get_elem? entries i)
    then pos (suc i)
    else behind (index_of name entries) (pos (min i (length entries)))
resume_from entries name (some (negsuc i)) = behind (index_of name entries) (negsuc i)

abbrev pub resume_parts : List Entry → Option (Bytes × Bytes) → ℤ
resume_parts entries none = pos 0
resume_parts entries (some parts) = resume_from entries (parts.1) (atoi (parts.0))

unfoldable pub resume_at : List Entry → Bytes → ℤ
resume_at entries [] = pos 0
resume_at entries (x ∷ xs) = resume_parts entries (cut_colon (x ∷ xs))

abbrev pub cursor_to : ℕ → Option Entry → Bytes
cursor_to index none = []
cursor_to index (some e) = itoa index ++ 58 ∷ e.name

-- From a resume point; the sum of start and limit is unbounded, where int wraps at a limit near 2^63.
abbrev pub page_from : List Entry → ℕ → ℤ → Option Page
page_from entries limit (negsuc s) = none
page_from entries limit (pos s) =
    let total = length entries in
    let end = min (s + limit) total in
    if leb total s
    then some (record { entries = []; total = total; cursor = [] })
    else some (record {
      entries = take (end - s) (drop s entries);
      total = total;
      cursor = if ltb end total then cursor_to (end - 1) (get_elem? entries (end - 1)) else [];
    })

unfoldable pub page_of : List Entry → Bytes → ℕ → Option Page
unfolding resume_at
page_of entries cursor limit =
    page_from entries (if limit == 0 then default_page_size else limit) (resume_at entries cursor)
