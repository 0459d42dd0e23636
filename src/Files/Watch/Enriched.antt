-- ===== src/Files/Watch/Enriched.antt =====
-- applyChanged: the view after it is the view before with the published entries taken by name.
use dankgo.Prelude.{
  ℕ, zero, suc, ◌≡◌, refl, ap, ap₂, inl, inr, Bool, true, Option, none, some, List, [], ◌∷◌, arith,
  keep, All, Option-cases,
}
use dankgo.Prelude.Text.{Bytes, eqb, eqb_iff}
use dankgo.Prelude.Int.{eqb_ℤ}
use dankgo.Files.Entry.{Entry}
use dankgo.Files.Names.{names_of, index_of, Lacks, IsUnique}
use dankgo.Files.Names.Lookup.{eqb_comm, Lacks-eqb}
use dankgo.Files.Watch.Batch.{update_from, update_all}
use dankgo.Files.Watch.Enrich.{set_at, entry_at}

-- Enrichment leaves alone what decides whether an entry is shown, if the file has not changed.
abbrev pub Agrees : Entry → Entry → Type 0
Agrees c x =
    eqb c.name x.name ≡ true
    → eqb_ℤ x.mtime_ms c.mtime_ms ≡ true
    → (x.hidden ≡ c.hidden) × (x.is_dir ≡ c.is_dir)

abbrev pub AllAgree : List Entry → List Entry → Type 0
AllAgree cs es = All (λ c. All (Agrees c) es) cs

pub update_from-name : (cs : List Entry) (x : Entry) → (update_from cs x).name ≡ x.name
unfolding update_from
update_from-name [] x = refl
update_from-name (c ∷ cs) x = ground (arith, eqb_iff c.name x.name, update_from-name cs x)

pub names_of-update_all : (cs es : List Entry) → names_of (update_all cs es) ≡ names_of es
unfolding update_all names_of
names_of-update_all cs [] = refl
names_of-update_all cs (x ∷ xs) =
    ap₂ (λ n ns. n ∷ ns) (update_from-name cs x) (names_of-update_all cs xs)

Lacks-update_all : (n : Bytes) (cs es : List Entry) → Lacks n es → Lacks n (update_all cs es)
unfolding update_all
Lacks-update_all n cs [] h = tt
Lacks-update_all n cs (x ∷ xs) (h, hs) = (rw (update_from-name cs x) h, Lacks-update_all n cs xs hs)

pub update_all-IsUnique : (cs es : List Entry) → IsUnique es → IsUnique (update_all cs es)
unfolding update_all
update_all-IsUnique cs [] u = tt
update_all-IsUnique cs (x ∷ xs) (l, u) =
    (rw (update_from-name cs x) (Lacks-update_all x.name cs xs l), update_all-IsUnique cs xs u)

-- The entry that the search finds is the one entry of its name.
entry_at-cons :
    (x : Entry) (es : List Entry) (o : Option ℕ)
    → entry_at (x ∷ es) (elim o [ none ↦ none | some i ↦ some (suc i) ]) ≡ entry_at es o
entry_at-cons x es none = refl
entry_at-cons x es (some i) = refl

abbrev pub Finds : Bytes → List Entry → Entry → Type 0
Finds n es x = eqb x.name n ≡ true → entry_at es (index_of n es) ≡ some x

Finds-behind :
    (n : Bytes) (e : Entry) (es xs : List Entry)
    → Lacks e.name xs
    → All (Finds n es) xs
    → All (Finds n (e ∷ es)) xs
unfolding index_of
Finds-behind n e es [] l h = tt
Finds-behind n e es (x ∷ xs) (l, ls) (h, hs) = (
  (λ same. elim (Option-cases (index_of n es)) [
    | inl missing ↦
        ground (arith, h same, eqb_iff x.name n, eqb_iff e.name n, eqb_iff x.name e.name)
    | inr (i, at) ↦
        ground (arith, h same, eqb_iff x.name n, eqb_iff e.name n, eqb_iff x.name e.name)
  ]),
  Finds-behind n e es xs ls hs,
)

pub finds : (n : Bytes) (es : List Entry) → IsUnique es → All (Finds n es) es
unfolding index_of
finds n [] u = tt
finds n (e ∷ es) (l, u) = (λ same. rw same, Finds-behind n e es es l (finds n es u))

-- Writing at the index of the name is taking the entry by name.
update_all-Lacks : (c : Entry) (es : List Entry) → Lacks c.name es → update_all (c ∷ []) es ≡ es
unfolding update_all update_from
update_all-Lacks c [] h = refl
update_all-Lacks c (x ∷ xs) (h, hs) =
    ground (arith, eqb_comm c.name x.name, update_all-Lacks c xs hs)

pub set_at-update_all :
    (c : Entry) (es : List Entry) (i : ℕ)
    → IsUnique es
    → index_of c.name es ≡ some i
    → set_at i c es ≡ update_all (c ∷ []) es
unfolding set_at update_all update_from index_of
set_at-update_all c [] i u h = refl
set_at-update_all c (x ∷ xs) zero (l, u) h = ground (
  arith,
  eqb_iff x.name c.name,
  eqb_comm c.name x.name,
  update_all-Lacks c xs (Lacks-eqb x.name c.name xs (ground arith) l),
)
set_at-update_all c (x ∷ xs) (suc i) (l, u) h =
    ground (arith, eqb_comm c.name x.name, set_at-update_all c xs i u)

module _ (shows : Entry → Bool)
    (by : (x y : Entry)
      → x.name ≡ y.name
      → x.hidden ≡ y.hidden
      → x.is_dir ≡ y.is_dir
      → shows x ≡ shows y) where
  pub keep-update_one :
      (c : Entry) (es : List Entry)
      → All (λ x. eqb c.name x.name ≡ true → shows x ≡ shows c) es
      → keep shows (update_all (c ∷ []) es) ≡ update_all (keep shows (c ∷ [])) (keep shows es)
  unfolding update_all update_from
  keep-update_one c [] h = refl
  keep-update_one c (x ∷ xs) (h, hs) = ground (arith, h, keep-update_one c xs hs)

  pub update_all-nothing : (es : List Entry) → update_all [] es ≡ es
  unfolding update_all update_from
  update_all-nothing [] = refl
  update_all-nothing (x ∷ xs) = ap (λ l. x ∷ l) (update_all-nothing xs)

  update_from-Lacks : (cs : List Entry) (x : Entry) → Lacks x.name cs → update_from cs x ≡ x
  unfolding update_from
  update_from-Lacks [] x h = refl
  update_from-Lacks (c ∷ cs) x (h, hs) = ground (arith, update_from-Lacks cs x hs)

  pub update_all-update_one :
      (c : Entry) (cs es : List Entry)
      → Lacks c.name cs
      → update_all cs (update_all (c ∷ []) es) ≡ update_all (c ∷ cs) es
  unfolding update_all update_from
  update_all-update_one c cs [] h = refl
  update_all-update_one c cs (x ∷ xs) h =
      ground (arith, update_from-Lacks cs c h, update_all-update_one c cs xs h)
