-- ===== src/Trash/Escape.antt =====
-- trash/trash.go: pathEncode and pathDecode, with url.PathEscape and url.PathUnescape as the
-- documentation of Go's net/url gives them.
use dankgo.Prelude.{
  ℕ, ◌+◌, ◌-◌, ◌*◌, ◌/◌, ◌%◌, ◌<◌, ◌≡◌, refl, sym, ap, ◌∙◌, Bool, false, ◌&&◌, ◌||◌, Option, none,
  some, List, [], ◌∷◌, ◌++◌, append_assoc, map, arith, if◌then◌else◌, leb, ltb, ◌==◌, All,
  Bool-cases, inl, inr, subst,
}
use dankgo.Prelude.Text.{Bytes}
use dankgo.Prelude.Split.{split, join, push, IsFree, IsFree-append, split_nonempty}

abbrev within : ℕ → ℕ → ℕ → Bool
within lo hi c = leb lo c && leb c hi

abbrev one_of : ℕ → Bytes → Bool
one_of c [] = false
one_of c (x ∷ xs) = c == x || one_of c xs

-- Letters, digits, and -_.~$&+:=@ stand for themselves in a path segment.
unfoldable pub is_plain : ℕ → Bool
is_plain c =
    within 97 122 c
    || (within 65 90 c
        || (within 48 57 c || one_of c (45 ∷ 95 ∷ 46 ∷ 126 ∷ 36 ∷ 38 ∷ 43 ∷ 58 ∷ 61 ∷ 64 ∷ [])))

abbrev hex_digit : ℕ → ℕ
hex_digit n = if ltb n 10 then 48 + n else 55 + n

unfoldable pub escape_byte : ℕ → Bytes
escape_byte c = if is_plain c then c ∷ [] else 37 ∷ hex_digit (c / 16) ∷ hex_digit (c % 16) ∷ []

-- url.PathEscape
unfoldable pub path_escape : Bytes → Bytes
path_escape [] = []
path_escape (c ∷ cs) = escape_byte c ++ path_escape cs

-- The value of a hexadecimal digit of either case.
abbrev hex_value : ℕ → Option ℕ
hex_value c =
    if within 48 57 c
    then some (c - 48)
    else if within 65 70 c
    then some (c - 55)
    else if within 97 102 c
    then some (c - 87)
    else none

abbrev push_byte : Option ℕ → Option ℕ → Option Bytes → Option Bytes
push_byte (some a) (some b) (some rest) = some ((16 * a + b) ∷ rest)
push_byte _ _ _ = none

abbrev keep_byte : ℕ → Option Bytes → Option Bytes
keep_byte c none = none
keep_byte c (some rest) = some (c ∷ rest)

-- url.PathUnescape: `none` is its error.
unfoldable pub path_unescape : Bytes → Option Bytes
path_unescape [] = some []
path_unescape (c ∷ []) = if c == 37 then none else some (c ∷ [])
path_unescape (c ∷ a ∷ []) =
    let rest = path_unescape (a ∷ []) in if c == 37 then none else keep_byte c rest
path_unescape (c ∷ a ∷ b ∷ cs) =
    let behind = path_unescape cs in
    let rest = path_unescape (a ∷ b ∷ cs) in
    if c == 37 then push_byte (hex_value a) (hex_value b) behind else keep_byte c rest

unfoldable pub path_encode : Bytes → Bytes
path_encode p = join 47 (map path_escape (split 47 p))

abbrev or_raw : Bytes → Option Bytes → Bytes
or_raw p none = p
or_raw p (some d) = d

unfoldable pub path_decode : Bytes → Bytes
path_decode p = or_raw p (path_unescape p)

abbrev pub AreBytes : Bytes → Type 0
AreBytes = All (λ c. c < 256)

path_unescape-plain :
    (c : ℕ) (rest : Bytes)
    → (c == 37) ≡ false
    → path_unescape (c ∷ rest) ≡ keep_byte c (path_unescape rest)
unfolding path_unescape
path_unescape-plain c [] h = ground arith
path_unescape-plain c (a ∷ []) h = ground arith
path_unescape-plain c (a ∷ b ∷ rest) h = ground arith

hex_value-hex_digit : (n : ℕ) → n < 16 → hex_value (hex_digit n) ≡ some n
hex_value-hex_digit n h = ground arith

path_unescape-percent :
    (a b : ℕ) (rest : Bytes)
    → path_unescape (37 ∷ a ∷ b ∷ rest) ≡ push_byte (hex_value a) (hex_value b) (path_unescape rest)
unfolding path_unescape
path_unescape-percent a b rest = refl

push-keep : (c : ℕ) (o : Option Bytes) → push_byte (some (c / 16)) (some (c % 16)) o ≡ keep_byte c o
push-keep c none = refl
push-keep c (some rest) = ap (λ x. some (x ∷ rest)) (omega arith)

path_unescape-escape_byte :
    (c : ℕ) (rest : Bytes)
    → c < 256
    → path_unescape (escape_byte c ++ rest) ≡ keep_byte c (path_unescape rest)
unfolding escape_byte
path_unescape-escape_byte c rest h = elim (Bool-cases (is_plain c)) [
  | inl p ↦ rw p (path_unescape-plain c rest (unfold is_plain in ground arith))
  | inr p ↦ rw p (
      path_unescape-percent (hex_digit (c / 16)) (hex_digit (c % 16)) rest
      ∙ (rw (hex_value-hex_digit (c / 16) (omega arith), hex_value-hex_digit (c % 16) (omega arith))
          (push-keep c (path_unescape rest))))
]

-- The encoding byte by byte: a slash stays.
abbrev encoded : Bytes → Bytes
encoded [] = []
encoded (c ∷ cs) = let rest = encoded cs in if c == 47 then 47 ∷ rest else escape_byte c ++ rest

abbrev joined : List Bytes → Bytes
joined ps = join 47 (map path_escape ps)

joined-slash :
    (ps : List Bytes) (q : Bytes) (qs : List Bytes)
    → ps ≡ q ∷ qs
    → joined ([] ∷ ps) ≡ 47 ∷ joined ps
unfolding join path_escape
joined-slash ps q qs e = rw e refl

joined-push : (c : ℕ) (ps : List Bytes) → joined (push c ps) ≡ escape_byte c ++ joined ps
unfolding join path_escape
joined-push c [] = refl
joined-push c (p ∷ []) = refl
joined-push c (p ∷ q ∷ ps) = append_assoc (escape_byte c) (path_escape p) _

path_encode-encoded : (s : Bytes) → path_encode s ≡ encoded s
unfolding path_encode split
path_encode-encoded [] = unfold join path_escape in refl
path_encode-encoded (c ∷ cs) =
    let ih = path_encode-encoded cs in
    elim (Bool-cases (c == 47)) [
      | inl h ↦
          let (q, (qs, e)) = split_nonempty 47 cs in
          rw h (joined-slash (split 47 cs) q qs e ∙ ap (λ x. 47 ∷ x) ih)
      | inr h ↦ rw h (joined-push c (split 47 cs) ∙ ap (λ x. escape_byte c ++ x) ih)
    ]

path_unescape-encoded : (s : Bytes) → AreBytes s → path_unescape (encoded s) ≡ some s
path_unescape-encoded [] a = unfold path_unescape in refl
path_unescape-encoded (c ∷ cs) (h, a) =
    let ih = path_unescape-encoded cs a in
    elim (Bool-cases (c == 47)) [
      | inl e ↦ rw e (
          path_unescape-plain 47 (encoded cs) refl
          ∙ (ap (keep_byte 47) ih ∙ ap (λ x. some (x ∷ cs)) (ground arith)))
      | inr e ↦ rw e (path_unescape-escape_byte c (encoded cs) h ∙ ap (keep_byte c) ih)
    ]

-- Every path, whatever bytes it has, is read back from its encoding.
pub path_decode-path_encode : (s : Bytes) → AreBytes s → path_decode (path_encode s) ≡ s
unfolding path_decode
path_decode-path_encode s a =
    ap (λ x. or_raw x (path_unescape x)) (path_encode-encoded s)
    ∙ ap (or_raw (encoded s)) (path_unescape-encoded s a)

escape_byte-IsFree : (c : ℕ) → c < 256 → IsFree 10 (escape_byte c)
unfolding escape_byte
escape_byte-IsFree c h = elim (Bool-cases (is_plain c)) [
  | inl p ↦ rw p (unfold is_plain in ground arith, tt)
  | inr p ↦ rw p (refl, (ground arith, (ground arith, tt)))
]

encoded-IsFree : (s : Bytes) → AreBytes s → IsFree 10 (encoded s)
encoded-IsFree [] a = tt
encoded-IsFree (c ∷ cs) (h, a) = elim (Bool-cases (c == 47)) [
  | inl e ↦ rw e (refl, encoded-IsFree cs a)
  | inr e ↦
      rw e (
        IsFree-append 10 (escape_byte c) (encoded cs) (escape_byte-IsFree c h)
          (encoded-IsFree cs a))
]

-- The encoding of a path stays on one line.
pub path_encode-IsFree : (s : Bytes) → AreBytes s → IsFree 10 (path_encode s)
path_encode-IsFree s a = subst (IsFree 10) (sym (path_encode-encoded s)) (encoded-IsFree s a)
