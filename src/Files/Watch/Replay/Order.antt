-- ===== src/Files/Watch/Replay/Order.antt =====
-- The loop of `diff` over the names before: what it removes, what has existed, and what its order
-- test means.
use dankgo.Prelude.{
  ℕ, zero, suc, ◌≤◌, ◌≡◌, refl, inl, inr, Bool, true, false, none, some, List, [], ◌∷◌, arith, keep,
  All, take, drop, Option-cases, Bool-cases,
}
use dankgo.Prelude.Text.{Bytes, eqb}
use dankgo.Files.Entry.{Entry}
use dankgo.Files.Names.{has, names_of, Lacks, IsUnique}
use dankgo.Files.Names.Lookup.{Lacks-eqb}
use dankgo.Files.Watch.Diff.{position}

-- The entry has one of these names.
abbrev pub named_in : List Entry → Entry → Bool
named_in es e = has (names_of es) e.name

pub keep_congr {ℓ} :
    {A : Type ℓ} (p q : A → Bool) (xs : List A) → All (λ x. p x ≡ q x) xs → keep p xs ≡ keep q xs
keep_congr p q [] h = refl
keep_congr p q (x ∷ xs) (h, hs) = ground (arith, keep_congr p q xs hs)

pub All-take {ℓ κ} :
    {A : Type ℓ} (P : A → Type κ) (n : ℕ) (xs : List A) → All P xs → All P (take n xs)
All-take P zero xs h = tt
All-take P (suc n) [] h = tt
All-take P (suc n) (x ∷ xs) (h, hs) = (h, All-take P n xs hs)

pub All-drop {ℓ κ} :
    {A : Type ℓ} (P : A → Type κ) (n : ℕ) (xs : List A) → All P xs → All P (drop n xs)
All-drop P zero xs h = h
All-drop P (suc n) [] h = tt
All-drop P (suc n) (x ∷ xs) (h, hs) = All-drop P n xs hs

pub All-take-le {ℓ κ} :
    {A : Type ℓ} (P : A → Type κ) (m n : ℕ) (xs : List A)
    → m ≤ n
    → All P (take n xs)
    → All P (take m xs)
All-take-le P zero n xs h a = tt
All-take-le P (suc m) zero xs h a = elim h [ ]
All-take-le P (suc m) (suc n) [] h a = tt
All-take-le P (suc m) (suc n) (x ∷ xs) h (a, as') = (a, All-take-le P m n xs (omega arith) as')

pub keep-drop_le {ℓ} :
    {A : Type ℓ} (q : A → Bool) (m n : ℕ) (xs : List A)
    → m ≤ n
    → All (λ x. q x ≡ false) (take n xs)
    → keep q (drop m xs) ≡ keep q (drop n xs)
keep-drop_le q zero zero xs h a = refl
keep-drop_le q zero (suc n) [] h a = refl
keep-drop_le q zero (suc n) (x ∷ xs) h (a, as') =
    ground (arith, keep-drop_le q zero n xs (omega arith) as')
keep-drop_le q (suc m) zero xs h a = elim h [ ]
keep-drop_le q (suc m) (suc n) [] h a = refl
keep-drop_le q (suc m) (suc n) (x ∷ xs) h (a, as') = keep-drop_le q m n xs (omega arith) as'

pub position-Lacks : (n : Bytes) (es : List Entry) → Lacks n es → position n es ≡ none
unfolding position
position-Lacks n [] h = refl
position-Lacks n (e ∷ es) (h, hs) = ground (arith, position-Lacks n es hs)

pub position-none : (n : Bytes) (es : List Entry) → position n es ≡ none → Lacks n es
unfolding position
position-none n [] h = tt
position-none n (e ∷ es) h = ground (arith, position-none n es)

pub has-position :
    (n : Bytes) (es : List Entry) (i : ℕ) → position n es ≡ some i → has (names_of es) n ≡ true
unfolding position has names_of
has-position n [] i h = cc
has-position n (e ∷ es) i h = elim (Option-cases (position n es)) [
  | inl missing ↦ ground arith
  | inr (j, there) ↦ ground (arith, has-position n es j there)
]

pub record Splits (n : Bytes) (es : List Entry) (i : ℕ) : Type 0 where
  pub here : Entry
  pub at : drop i es ≡ here ∷ drop (suc i) es
  pub named : eqb here.name n ≡ true
  pub before : Lacks n (take i es)
  pub behind : Lacks n (drop (suc i) es)

pub position-Splits :
    (n : Bytes) (es : List Entry) (i : ℕ) → IsUnique es → position n es ≡ some i → Splits n es i
unfolding position
position-Splits n [] i u h = absurd (ground arith)
position-Splits n (e ∷ es) i u h = elim (Option-cases (position n es)) [
  | inl missing ↦
      let e0 : i ≡ zero = ground arith in
      rw e0 (record {
        here = e;
        at = refl;
        named = ground arith;
        before = tt;
        behind = position-none n es missing;
      })
  | inr (j, there) ↦
      let e1 : i ≡ suc j = ground arith in
      let s = position-Splits n es j u.1 there in
      rw e1 (record {
        here = s.here;
        at = s.at;
        named = s.named;
        before = (
          elim (Bool-cases (eqb e.name n)) [
            | inl same ↦
                absurd (ground (arith, position-Lacks n es (Lacks-eqb e.name n es same u.0)))
            | inr other ↦ other
          ],
          s.before,
        );
        behind = s.behind;
      })
]
