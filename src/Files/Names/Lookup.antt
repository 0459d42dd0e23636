-- ===== src/Files/Names/Lookup.antt =====
-- Lookup, deletion and insertion by name: what they leave alone, and that names stay unique.
use dankgo.Prelude.{
  ℕ, zero, suc, ◌≡◌, refl, sym, ap, Bool, true, false, none, some, List, [], ◌∷◌, arith, keep,
  get_elem?, ◌∙◌,
}
use dankgo.Prelude.Text.{Bytes, eqb, eqb_iff}
use dankgo.Files.Entry.{Entry}
use dankgo.Files.Names.{names_of, has, index_of, delete_at, Lacks, IsUnique}
use dankgo.Files.Sort.Sorted.{insert_at}

pub eqb_comm : (a b : Bytes) → eqb a b ≡ eqb b a
eqb_comm a b = ground (arith, eqb_iff a b, eqb_iff b a)

pub has-eqb : (ms : List Bytes) (a b : Bytes) → eqb a b ≡ true → has ms a ≡ has ms b
has-eqb ms a b h = ap (has ms) ((eqb_iff a b).0 h)

pub keep-insert_at {ℓ} :
    {A : Type ℓ} (q : A → Bool) (k : ℕ) (e : A) (xs : List A)
    → q e ≡ false
    → keep q (insert_at k e xs) ≡ keep q xs
keep-insert_at q zero e xs h = ground arith
keep-insert_at q (suc k) e [] h = ground arith
keep-insert_at q (suc k) e (x ∷ xs) h = ground (arith, keep-insert_at q k e xs h)

-- The search finds nothing exactly where no entry has the name.
pub index_of-none : (n : Bytes) (es : List Entry) → index_of n es ≡ none → Lacks n es
unfolding index_of
index_of-none n [] h = tt
index_of-none n (e ∷ es) h = ground (arith, index_of-none n es)

pub index_of-Lacks : (n : Bytes) (es : List Entry) → Lacks n es → index_of n es ≡ none
unfolding index_of
index_of-Lacks n [] h = refl
index_of-Lacks n (e ∷ es) (h, hs) = ground (arith, index_of-Lacks n es hs)

module _ (n : Bytes) (q : Entry → Bool)
    (off : (e : Entry) → eqb e.name n ≡ true → q e ≡ false) where
  pub keep-delete_at :
      (es : List Entry) (i : ℕ) → index_of n es ≡ some i → keep q (delete_at i es) ≡ keep q es
  unfolding index_of delete_at
  keep-delete_at [] i h = refl
  keep-delete_at (e ∷ es) zero h = ground (arith, off e)
  keep-delete_at (e ∷ es) (suc i) h = ground (arith, off e, keep-delete_at es i)

-- The entry at the index that the search gives.
pub index_of-get_elem? :
    (n : Bytes) (es : List Entry) (i : ℕ)
    → index_of n es ≡ some i
    → (e : Entry) × (get_elem? es i ≡ some e) × (eqb e.name n ≡ true)
unfolding index_of
index_of-get_elem? n [] i h = cc
index_of-get_elem? n (e ∷ es) zero h = (e, refl, ground arith)
index_of-get_elem? n (e ∷ es) (suc i) h = index_of-get_elem? n es i (ground arith)

pub Lacks-delete_at : (n : Bytes) (i : ℕ) (es : List Entry) → Lacks n es → Lacks n (delete_at i es)
unfolding delete_at
Lacks-delete_at n i [] h = tt
Lacks-delete_at n zero (e ∷ es) h = h.1
Lacks-delete_at n (suc i) (e ∷ es) h = (h.0, Lacks-delete_at n i es h.1)

pub delete_at-IsUnique : (i : ℕ) (es : List Entry) → IsUnique es → IsUnique (delete_at i es)
unfolding delete_at
delete_at-IsUnique i [] u = tt
delete_at-IsUnique zero (e ∷ es) u = u.1
delete_at-IsUnique (suc i) (e ∷ es) u =
    (Lacks-delete_at e.name i es u.0, delete_at-IsUnique i es u.1)

pub Lacks-eqb : (a b : Bytes) (es : List Entry) → eqb a b ≡ true → Lacks a es → Lacks b es
Lacks-eqb a b es e h = rw (sym ((eqb_iff a b).0 e)) h

-- After its deletion no entry has the name.
pub Lacks-delete_self :
    (n : Bytes) (es : List Entry) (i : ℕ)
    → IsUnique es
    → index_of n es ≡ some i
    → Lacks n (delete_at i es)
unfolding index_of delete_at
Lacks-delete_self n [] i u h = tt
Lacks-delete_self n (e ∷ es) zero u h = Lacks-eqb e.name n es (ground arith) u.0
Lacks-delete_self n (e ∷ es) (suc i) u h =
    (ground arith, Lacks-delete_self n es i u.1 (ground arith))

pub Lacks-insert_at :
    (n : Bytes) (k : ℕ) (e : Entry) (es : List Entry)
    → eqb e.name n ≡ false
    → Lacks n es
    → Lacks n (insert_at k e es)
Lacks-insert_at n zero e es h l = (h, l)
Lacks-insert_at n (suc k) e [] h l = (h, tt)
Lacks-insert_at n (suc k) e (x ∷ es) h l = (l.0, Lacks-insert_at n k e es h l.1)

pub insert_at-IsUnique :
    (k : ℕ) (e : Entry) (es : List Entry)
    → Lacks e.name es
    → IsUnique es
    → IsUnique (insert_at k e es)
insert_at-IsUnique zero e es l u = (l, u)
insert_at-IsUnique (suc k) e [] l u = (tt, tt)
insert_at-IsUnique (suc k) e (x ∷ es) l u = (
  Lacks-insert_at x.name k e es (eqb_comm e.name x.name ∙ l.0) u.0,
  insert_at-IsUnique k e es l.1 u.1,
)

pub Lacks-keep : (n : Bytes) (q : Entry → Bool) (es : List Entry) → Lacks n es → Lacks n (keep q es)
Lacks-keep n q [] h = tt
Lacks-keep n q (e ∷ es) h = ground (arith, Lacks-keep n q es h.1)

pub keep-IsUnique : (q : Entry → Bool) (es : List Entry) → IsUnique es → IsUnique (keep q es)
keep-IsUnique q [] u = tt
keep-IsUnique q (e ∷ es) u = ground (arith, keep-IsUnique q es u.1, Lacks-keep e.name q es u.0)

pub keep_comm {ℓ} :
    {A : Type ℓ} (p q : A → Bool) (xs : List A) → keep p (keep q xs) ≡ keep q (keep p xs)
keep_comm p q [] = refl
keep_comm p q (x ∷ xs) = ground (arith, keep_comm p q xs)

pub has-names_of-Lacks : (n : Bytes) (es : List Entry) → has (names_of es) n ≡ false → Lacks n es
unfolding has names_of
has-names_of-Lacks n [] h = tt
has-names_of-Lacks n (e ∷ es) h = ground (arith, has-names_of-Lacks n es)

pub Lacks-has-names_of : (n : Bytes) (es : List Entry) → Lacks n es → has (names_of es) n ≡ false
unfolding has names_of
Lacks-has-names_of n [] h = refl
Lacks-has-names_of n (e ∷ es) h = ground (arith, Lacks-has-names_of n es h.1)
