-- ===== src/Desktop/Groups.antt =====
-- desktop/parser.go: groups of keys. A map is a function; white space is that of ASCII, and a line may be
-- of any length.
use dankgo.Prelude.{
  ℕ, suc, ◌+◌, ◌-◌, Bool, true, false, ◌&&◌, ◌||◌, Option, none, some, List, [], ◌∷◌, map,
  if◌then◌else◌, leb, ◌==◌, take, drop, length,
}
use dankgo.Prelude.{ap, refl, ◌≡◌, ◌≤◌, arith}
use dankgo.Prelude.Decimal.{AreDigits}
use dankgo.Prelude.Text.{Bytes, codes, eqb}
use dankgo.Prelude.Split.{split}
use dankgo.Prelude.Members.{GoMap, assign}

abbrev pub is_space : ℕ → Bool
is_space c = c == 32 || (leb 9 c && leb c 13)

abbrev pub is_empty : Bytes → Bool
is_empty [] = true
is_empty (c ∷ cs) = false

abbrev pub skip_spaces : Bytes → Bytes
skip_spaces [] = []
skip_spaces (c ∷ cs) = let rest = skip_spaces cs in if is_space c then rest else c ∷ cs

abbrev pub drop_spaces : Bytes → Bytes
drop_spaces [] = []
drop_spaces (c ∷ cs) =
    let rest = drop_spaces cs in if is_space c && is_empty rest then [] else c ∷ rest

-- strings.TrimSpace
unfoldable pub trim_space : Bytes → Bytes
trim_space s = drop_spaces (skip_spaces s)

abbrev next : Option ℕ → Option ℕ
next none = none
next (some i) = some (suc i)

-- strings.IndexByte, none for -1.
unfoldable pub index_byte : ℕ → Bytes → Option ℕ
index_byte b [] = none
index_byte b (c ∷ cs) = let rest = index_byte b cs in if c == b then some 0 else next rest

abbrev pub drop_cr : Bytes → Bytes
drop_cr [] = []
drop_cr (c ∷ cs) = let rest = drop_cr cs in if c == 13 && is_empty cs then [] else c ∷ rest

abbrev pub but_last_empty : List Bytes → List Bytes
but_last_empty [] = []
but_last_empty (line ∷ []) = if is_empty line then [] else line ∷ []
but_last_empty (line ∷ next ∷ lines) = line ∷ but_last_empty (next ∷ lines)

-- The lines of a bufio.Scanner.
unfoldable pub scan_lines : Bytes → List Bytes
unfolding split
scan_lines text = map drop_cr (but_last_empty (split 10 text))

abbrev pub Group : Type 0
Group = GoMap Bytes

abbrev pub first_is : ℕ → Bytes → Bool
first_is b [] = false
first_is b (c ∷ cs) = c == b

abbrev pub last_is : ℕ → Bytes → Bool
last_is b [] = false
last_is b (c ∷ []) = c == b
last_is b (c ∷ d ∷ cs) = last_is b (d ∷ cs)

-- The groups so far, and the name of the current one.
pub record Parsing : Type 0 where
  pub groups : GoMap Group
  pub current : Option Bytes

abbrev pub named : Bytes → Option Group → GoMap Group → GoMap Group
named name none gs = assign name (some (λ _. none)) gs
named name (some g) gs = gs

abbrev before_bracket : Bytes → Option ℕ → Bytes
before_bracket key none = key
before_bracket key (some i) = if i == 0 then key else take i key

unfoldable pub base_key : Bytes → Bytes
unfolding index_byte
base_key key = before_bracket key (index_byte 91 key)

abbrev pub with_key : Bytes → Bytes → Option Bytes → Group → Group
with_key key value none g = assign key (some value) g
with_key key value (some old) g = g

abbrev pub in_group : Bytes → Bytes → Bytes → Option Group → GoMap Group → GoMap Group
in_group name key value none gs = gs
in_group name key value (some g) gs = assign name (some (with_key key value (g key) g)) gs

abbrev pub keyed : Bytes → Bytes → Option ℕ → Parsing → Parsing
keyed name line none p = p
keyed name line (some eq) p = if eq == 0 then p else record p {
  groups =
      in_group name (base_key (trim_space (take eq line))) (trim_space (drop (suc eq) line))
        (p.groups name) p.groups;
}

abbrev pub in_current : Bytes → Option Bytes → Parsing → Parsing
in_current line none p = p
in_current line (some name) p = keyed name line (index_byte 61 line) p

abbrev pub header_name : Bytes → Bytes
header_name line = take (length line - 2) (drop 1 line)

-- One round of the loop of parseGroups, at a trimmed line.
unfoldable pub parse_line : Bytes → Parsing → Parsing
unfolding base_key trim_space index_byte
parse_line line p =
    if is_empty line || first_is 35 line
    then p
    else if first_is 91 line && last_is 93 line
    then record {
      groups = named (header_name line) (p.groups (header_name line)) p.groups;
      current = some (header_name line);
    }
    else in_current line p.current p

abbrev pub parse_lines : List Bytes → Parsing → Parsing
parse_lines [] p = p
parse_lines (line ∷ lines) p = parse_lines lines (parse_line (trim_space line) p)

unfoldable pub parse_groups : Bytes → GoMap Group
unfolding scan_lines parse_line trim_space
parse_groups text =
    (parse_lines (scan_lines text) (record { groups = λ _. none; current = none })).groups

abbrev pub trimmed_parts : List Bytes → List Bytes
trimmed_parts [] = []
trimmed_parts (p ∷ ps) =
    let rest = trimmed_parts ps in if is_empty (trim_space p) then rest else trim_space p ∷ rest

unfoldable pub split_list : Bytes → List Bytes
unfolding split trim_space
split_list value = if is_empty value then [] else trimmed_parts (split 59 value)

abbrev lower : ℕ → ℕ
lower c = if leb 65 c && leb c 90 then c + 32 else c

unfoldable pub parse_bool : Bytes → Bool
unfolding eqb trim_space
parse_bool value =
    let v = map lower (trim_space value) in
    eqb v (codes "true") || (eqb v (codes "1") || eqb v (codes "yes"))

digit_not_space : (d : ℕ) → 48 ≤ d → d ≤ 57 → is_space d ≡ false
digit_not_space d h k = ground arith

drop_spaces-digits : (ds : Bytes) → AreDigits ds → drop_spaces ds ≡ ds
drop_spaces-digits [] a = refl
drop_spaces-digits (d ∷ ds) ((h, k), a) =
    rw (digit_not_space d h k) (ap (λ x. d ∷ x) (drop_spaces-digits ds a))

-- The digits of a number have no white space around them.
pub trim_space-digits : (ds : Bytes) → AreDigits ds → trim_space ds ≡ ds
unfolding trim_space
trim_space-digits [] a = refl
trim_space-digits (d ∷ ds) ((h, k), a) =
    rw (digit_not_space d h k) (drop_spaces-digits (d ∷ ds) ((h, k), a))
