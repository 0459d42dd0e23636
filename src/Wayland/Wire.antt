-- ===== src/Wayland/Wire.antt =====
-- wayland/client/request.go and event.go: words and strings of the wire format. The casts of the code
-- read memory in the order of the machine, taken as little-endian. `none` is a panic.
use dankgo.Prelude.{
  ℕ, suc, ◌+◌, ◌*◌, ◌/◌, ◌%◌, ◌^◌, ◌≤◌, ◌<◌, ◌≡◌, ◌≢◌, refl, false, Option, none, some, [], ◌∷◌,
  ◌++◌, arith, if◌then◌else◌, ltb, ◌==◌, length, drop, All, ap, ◌∙◌,
}
use dankgo.Prelude.Text.{Bytes}

-- The four bytes that PutUint32 writes for a value of type uint32.
unfoldable pub put_uint32 : ℕ → Bytes
put_uint32 v = v % 256 ∷ (v / 256) % 256 ∷ (v / 65536) % 256 ∷ (v / 16777216) % 256 ∷ []

unfoldable pub uint32 : Bytes → Option ℕ
uint32 (a ∷ b ∷ c ∷ d ∷ rest) = some (a + 256 * b + 65536 * c + 16777216 * d)
uint32 _ = none

-- The destination after PutString.
unfoldable pub put_string : Bytes → Bytes → Option Bytes
put_string dst v =
    if ltb (length dst) (length v + 5)
    then none
    else some (put_uint32 ((length v + 1) % 2 ^ 32) ++ (v ++ 0 ∷ drop (length v + 5) dst))

abbrev cons_to : ℕ → Option Bytes → Option Bytes
cons_to x none = none
cons_to x (some xs) = some (x ∷ xs)

-- String: the bytes before the first zero; a panic where there is none.
unfoldable pub string_of : Bytes → Option Bytes
string_of [] = none
string_of (x ∷ xs) = if x == 0 then some [] else cons_to x (string_of xs)

-- A word is read back from the bytes that were written for it, whatever follows.
pub uint32-put_uint32 : (v : ℕ) (rest : Bytes) → v < 2 ^ 32 → uint32 (put_uint32 v ++ rest) ≡ some v
unfolding uint32 put_uint32
uint32-put_uint32 v rest h = ap some (omega (arith, h))

five : (n : ℕ) → n + 5 ≡ suc (suc (suc (suc (suc n))))
five n = omega arith

drop-past : (v : Bytes) (x : ℕ) (rest : Bytes) → drop (suc (length v)) (v ++ x ∷ rest) ≡ rest
drop-past [] x rest = refl
drop-past (y ∷ v) x rest = drop-past v x rest

drop-put_uint32 :
    (v : Bytes) (n : ℕ) (rest : Bytes)
    → drop (length v + 5) (put_uint32 n ++ (v ++ 0 ∷ rest)) ≡ rest
unfolding put_uint32
drop-put_uint32 v n rest = rw (five (length v)) (drop-past v 0 rest)

string_of-append : (v rest : Bytes) → All (λ x. x ≢ 0) v → string_of (v ++ 0 ∷ rest) ≡ some v
unfolding string_of
string_of-append [] rest a = refl
string_of-append (x ∷ xs) rest (h, a) = ground (arith, string_of-append xs rest a)

-- A string without zero bytes is read back behind its length word, wherever the destination is long
-- enough; what lies behind it in the destination stays as it was.
pub put_string-string_of :
    (dst v : Bytes)
    → All (λ x. x ≢ 0) v
    → length v + 5 ≤ length dst
    → length v + 1 < 2 ^ 32
    → (out : Bytes) × ((put_string dst v ≡ some out)
        × ((uint32 out ≡ some (length v + 1))
            × ((string_of (drop 4 out) ≡ some v)
                × (drop (length v + 5) out ≡ drop (length v + 5) dst))))
unfolding put_string
put_string-string_of dst v a h k =
    let n = (length v + 1) % 2 ^ 32 in
    let rest = drop (length v + 5) dst in
    let fits : ltb (length dst) (length v + 5) ≡ false = ground arith in
    (
      put_uint32 n ++ (v ++ 0 ∷ rest),
      (
        rw fits refl,
        (
          uint32-put_uint32 n (v ++ 0 ∷ rest) (omega arith) ∙ ap some (omega (arith, k)),
          (unfold put_uint32 in string_of-append v rest a, drop-put_uint32 v n rest),
        ),
      ),
    )
