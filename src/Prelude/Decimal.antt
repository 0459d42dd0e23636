-- ===== src/Prelude/Decimal.antt =====
-- Decimal numbers as strconv.Itoa writes and strconv.Atoi reads them, and strings.Cut at a colon.
use Prim.Native.Nat.{ℕ, zero, suc, ◌+◌, ◌*◌, ◌-◌, ◌/◌, ◌%◌, ◌^◌, ◌≤◌, ◌<◌}
use mathlib.Core.Path.{◌≡◌, refl, ap, ◌∙◌}
use mathlib.Core.Logic.{inl, inr}
use mathlib.Core.Bool.{Bool, ◌&&◌}
use mathlib.Core.List.{List, [], ◌∷◌, ◌++◌}
use mathlib.Core.Option.{Option, none, some}
use native.Mathlib.Omega.{arith}
use dankgo.Prelude.Tests.{if◌then◌else◌, ltb, leb, ◌==◌, Bool-cases}
use dankgo.Prelude.Lists.{All}
use dankgo.Prelude.Int.{ℤ, pos, negsuc}

-- The fuel bounds the number of digits.
unfoldable pub digits : ℕ → ℕ → List ℕ
digits zero n = []
digits (suc f) n =
    let rest = digits f (n / 10) in if ltb n 10 then (48 + n) ∷ [] else rest ++ (48 + n % 10) ∷ []

unfoldable pub itoa : ℕ → List ℕ
unfolding digits
itoa n = digits (suc n) n

abbrev is_digit : ℕ → Bool
is_digit x = leb 48 x && leb x 57

-- The loop over the digits.
unfoldable pub value : ℕ → List ℕ → Option ℕ
value acc [] = some acc
value acc (x ∷ xs) = let rest = value (acc * 10 + (x - 48)) xs in if is_digit x then rest else none

abbrev pub magnitude : List ℕ → Option ℕ
magnitude [] = none
magnitude (x ∷ xs) = value 0 (x ∷ xs)

-- Within an int of 64 bits.
abbrev pub positive : Option ℕ → Option ℤ
positive none = none
positive (some v) = if ltb v (2 ^ 63) then some (pos v) else none

abbrev negated : ℕ → ℤ
negated zero = pos 0
negated (suc v) = negsuc v

abbrev pub negative : Option ℕ → Option ℤ
negative none = none
negative (some v) = if leb v (2 ^ 63) then some (negated v) else none

unfoldable pub atoi : List ℕ → Option ℤ
unfolding value
atoi [] = none
atoi (x ∷ xs) =
    if x == 45
    then negative (magnitude xs)
    else if x == 43
    then positive (magnitude xs)
    else positive (magnitude (x ∷ xs))

abbrev before_cut : ℕ → Option (List ℕ × List ℕ) → Option (List ℕ × List ℕ)
before_cut x none = none
before_cut x (some parts) = some (x ∷ parts.0, parts.1)

-- The parts around the first colon.
unfoldable pub cut_colon : List ℕ → Option (List ℕ × List ℕ)
cut_colon [] = none
cut_colon (x ∷ xs) = if x == 58 then some ([], xs) else before_cut x (cut_colon xs)

abbrev pub AreDigits : List ℕ → Type 0
AreDigits = All (λ x. (48 ≤ x) × (x ≤ 57))

AreDigits-append : (xs : List ℕ) (x : ℕ) → AreDigits xs → 48 ≤ x → x ≤ 57 → AreDigits (xs ++ x ∷ [])
AreDigits-append [] x a h k = ((h, k), tt)
AreDigits-append (y ∷ ys) x (d, a) h k = (d, AreDigits-append ys x a h k)

digits-AreDigits : (f n : ℕ) → AreDigits (digits f n)
unfolding digits
digits-AreDigits zero n = tt
digits-AreDigits (suc f) n = elim (Bool-cases (ltb n 10)) [
  | inl h ↦ rw h ((omega arith, ground arith), tt)
  | inr h ↦ rw h (
      AreDigits-append (digits f (n / 10)) (48 + n % 10) (digits-AreDigits f (n / 10)) (omega arith)
        (omega arith))
]

abbrev one_more : ℕ → Option ℕ → Option ℕ
one_more x none = none
one_more x (some m) = some (m * 10 + (x - 48))

value-append :
    (acc : ℕ) (xs : List ℕ) (x : ℕ)
    → 48 ≤ x
    → x ≤ 57
    → value acc (xs ++ x ∷ []) ≡ one_more x (value acc xs)
unfolding value
value-append acc [] x h k = ground arith
value-append acc (y ∷ ys) x h k = ground (arith, value-append (acc * 10 + (y - 48)) ys x h k)

value-digits : (f n : ℕ) → n < f → value 0 (digits f n) ≡ some n
unfolding digits value
value-digits zero n h = ground arith
value-digits (suc f) n h = elim (Bool-cases (ltb n 10)) [
  | inl l ↦ rw l (ground arith)
  | inr l ↦ rw l (
      value-append 0 (digits f (n / 10)) (48 + n % 10) (omega arith) (omega arith)
      ∙ (ap (one_more (48 + n % 10)) (value-digits f (n / 10) (ground arith))
          ∙ ap some (omega arith)))
]

cut_colon-append : (xs rest : List ℕ) → AreDigits xs → cut_colon (xs ++ 58 ∷ rest) ≡ some (xs, rest)
unfolding cut_colon
cut_colon-append [] rest a = refl
cut_colon-append (x ∷ xs) rest (d, a) = ground (arith, cut_colon-append xs rest a)

atoi-AreDigits :
    (xs : List ℕ) (n : ℕ)
    → AreDigits xs
    → magnitude xs ≡ some n
    → n < 2 ^ 63
    → atoi xs ≡ some (pos n)
unfolding atoi
atoi-AreDigits [] n a e h = ground arith
atoi-AreDigits (x ∷ xs) n (d, a) e h = ground arith

magnitude-value : (xs : List ℕ) (n : ℕ) → value 0 xs ≡ some (suc n) → magnitude xs ≡ some (suc n)
unfolding value
magnitude-value [] n e = ground arith
magnitude-value (x ∷ xs) n e = e

-- A number is read back from its decimal digits, up to the colon that ends them.
pub cut_colon-itoa : (n : ℕ) (rest : List ℕ) → cut_colon (itoa n ++ 58 ∷ rest) ≡ some (itoa n, rest)
unfolding itoa
cut_colon-itoa n rest = cut_colon-append (digits (suc n) n) rest (digits-AreDigits (suc n) n)

magnitude-itoa : (n : ℕ) → magnitude (itoa n) ≡ some n
unfolding itoa digits value
magnitude-itoa zero = refl
magnitude-itoa (suc n) =
    magnitude-value (digits (suc (suc n)) (suc n)) n
      (value-digits (suc (suc n)) (suc n) (omega arith))

pub itoa-AreDigits : (n : ℕ) → AreDigits (itoa n)
unfolding itoa
itoa-AreDigits n = digits-AreDigits (suc n) n

pub atoi-itoa : (n : ℕ) → n < 2 ^ 63 → atoi (itoa n) ≡ some (pos n)
atoi-itoa n h =
    atoi-AreDigits (itoa n) n (unfold itoa in digits-AreDigits (suc n) n) (magnitude-itoa n) h
