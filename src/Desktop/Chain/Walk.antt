-- ===== src/Desktop/Chain/Walk.antt =====
-- desktop/mime.go: the loop of mimeChain ends, since each pair of the subclass table can add one type only.
use dankgo.Prelude.{
  ℕ, zero, suc, ◌+◌, ◌≤◌, ◌≡◌, refl, sym, ap, ◌∙◌, Bool, true, false, not, ◌&&◌, ◌||◌, List, [],
  ◌∷◌, ◌++◌, arith, Bool-cases, inl, inr, subst, length, length-append,
}
use dankgo.Prelude.Text.{Bytes, eqb, eqb_iff, eqb_refl}
use dankgo.Prelude.Members.{contains, contains-append, AreDistinct, AreDistinct-append}
use dankgo.Desktop.Chain.{Pairs, Frontier, parents_of, visit, add_parents, walk, chain_from}

abbrev one_unless : Bool → ℕ
one_unless true = 0
one_unless false = 1

-- The pairs whose parent is not in the chain.
abbrev pub missing : List Bytes → Pairs → ℕ
missing chain [] = 0
missing chain ((k, v) ∷ kvs) = one_unless (contains chain v) + missing chain kvs

abbrev pub is_parent : Pairs → Bytes → Bool
is_parent [] x = false
is_parent ((k, v) ∷ kvs) x = eqb v x || is_parent kvs x

visit-known :
    (p : Bytes) (chain queue : List Bytes)
    → contains chain p ≡ true
    → visit p (chain, queue) ≡ (chain, queue)
visit-known p chain queue h = rw h refl

visit-new :
    (p : Bytes) (chain queue : List Bytes)
    → contains chain p ≡ false
    → visit p (chain, queue) ≡ (chain ++ p ∷ [], queue ++ p ∷ [])
visit-new p chain queue h = rw h refl

-- What holds after the rest of the parents from either outcome holds after all of them.
pub by_visit :
    (P : Frontier → Type 0) (p : Bytes) (ps chain queue : List Bytes)
    → (contains chain p ≡ true → P (add_parents ps (chain, queue)))
    → (contains chain p ≡ false → P (add_parents ps (chain ++ p ∷ [], queue ++ p ∷ [])))
    → P (add_parents (p ∷ ps) (chain, queue))
unfolding add_parents
by_visit P p ps chain queue known new = elim (Bool-cases (contains chain p)) [
  | inl h ↦ subst (λ s. P (add_parents ps s)) (sym (visit-known p chain queue h)) (known h)
  | inr h ↦ subst (λ s. P (add_parents ps s)) (sym (visit-new p chain queue h)) (new h)
]

-- The types that leave the loop over the parents.
pub add_parents-chain :
    (ps chain queue : List Bytes) (x : Bytes)
    → contains ((add_parents ps (chain, queue)).0) x ≡ (contains chain x || contains ps x)
unfolding add_parents contains
add_parents-chain [] chain queue x = ground arith
add_parents-chain (p ∷ ps) chain queue x =
    by_visit (λ s. contains (s.0) x ≡ (contains chain x || (eqb p x || contains ps x))) p ps chain
      queue (λ h. add_parents-chain ps chain queue x ∙ known h)
      (λ h.
        add_parents-chain ps (chain ++ p ∷ []) (queue ++ p ∷ []) x
        ∙ (rw (contains-append chain (p ∷ []) x) (ground arith)))
  where
    known :
        contains chain p ≡ true
        → (contains chain x || contains ps x) ≡ (contains chain x || (eqb p x || contains ps x))
    known h = elim (Bool-cases (eqb p x)) [
      | inl e ↦ rw (e, sym (ap (contains chain) ((eqb_iff p x).0 e)), h) refl
      | inr e ↦ rw e refl
    ]

pub add_parents-queue :
    (ps chain queue : List Bytes) (x : Bytes)
    → contains ((add_parents ps (chain, queue)).1) x
      ≡ (contains queue x || (contains ps x && not (contains chain x)))
unfolding add_parents contains
add_parents-queue [] chain queue x = ground arith
add_parents-queue (p ∷ ps) chain queue x =
    by_visit
      (λ s.
        contains (s.1) x
        ≡ (contains queue x || ((eqb p x || contains ps x) && not (contains chain x))))
      p ps chain queue (λ h. add_parents-queue ps chain queue x ∙ known h)
      (λ h.
        add_parents-queue ps (chain ++ p ∷ []) (queue ++ p ∷ []) x
        ∙ (rw (contains-append chain (p ∷ []) x, contains-append queue (p ∷ []) x) (new h)))
  where
    known :
        contains chain p ≡ true
        → (contains queue x || (contains ps x && not (contains chain x)))
          ≡ (contains queue x || ((eqb p x || contains ps x) && not (contains chain x)))
    known h = elim (Bool-cases (eqb p x)) [
      | inl e ↦ rw (e, sym (ap (contains chain) ((eqb_iff p x).0 e)), h) (ground arith)
      | inr e ↦ rw e refl
    ]

    new :
        contains chain p ≡ false
        → ((contains queue x || (eqb p x || false))
            || (contains ps x && not (contains chain x || (eqb p x || false))))
          ≡ (contains queue x || ((eqb p x || contains ps x) && not (contains chain x)))
    new h = elim (Bool-cases (eqb p x)) [
      | inl e ↦ rw (e, sym (ap (contains chain) ((eqb_iff p x).0 e)), h) (ground arith)
      | inr e ↦ rw e (ground arith)
    ]

pub add_parents-AreDistinct :
    (ps chain queue : List Bytes)
    → AreDistinct chain
    → AreDistinct ((add_parents ps (chain, queue)).0)
unfolding add_parents
add_parents-AreDistinct [] chain queue d = d
add_parents-AreDistinct (p ∷ ps) chain queue d =
    by_visit (λ s. AreDistinct (s.0)) p ps chain queue
      (λ h. add_parents-AreDistinct ps chain queue d)
      (λ h.
        add_parents-AreDistinct ps (chain ++ p ∷ []) (queue ++ p ∷ [])
          (AreDistinct-append chain p d h))

missing_grown :
    (chain : List Bytes) (p : Bytes) (kvs : Pairs)
    → missing (chain ++ p ∷ []) kvs ≤ missing chain kvs
missing_grown chain p [] = omega arith
missing_grown chain p ((k, v) ∷ kvs) =
    let ih = missing_grown chain p kvs in rw (contains-append chain (p ∷ []) v) (ground arith)

-- A new type that some pair has.
missing_new :
    (chain : List Bytes) (p : Bytes) (kvs : Pairs)
    → contains chain p ≡ false
    → is_parent kvs p ≡ true
    → suc (missing (chain ++ p ∷ []) kvs) ≤ missing chain kvs
unfolding contains
missing_new chain p [] h k = absurd (cc)
missing_new chain p ((j, v) ∷ kvs) h k = elim (Bool-cases (eqb v p)) [
  | inl e ↦
      let grown = missing_grown chain p kvs in
      rw (contains-append chain (p ∷ []) v, (eqb_iff v p).0 e, h) (ground (arith, eqb_iff p p))
  | inr e ↦
      let ih = missing_new chain p kvs h (rw e at k) in
      rw (contains-append chain (p ∷ []) v) (ground arith)
]

-- The queue and the pairs that can still add to it never grow together.
add_parents-shrinks :
    (kvs : Pairs) (ps chain queue : List Bytes)
    → ((x : Bytes) → contains ps x ≡ true → is_parent kvs x ≡ true)
    → length ((add_parents ps (chain, queue)).1) + missing ((add_parents ps (chain, queue)).0) kvs
      ≤ length queue + missing chain kvs
unfolding add_parents
add_parents-shrinks kvs [] chain queue all = omega arith
add_parents-shrinks kvs (p ∷ ps) chain queue all =
    by_visit (λ s. length (s.1) + missing (s.0) kvs ≤ length queue + missing chain kvs) p ps chain
      queue (λ h. add_parents-shrinks kvs ps chain queue rest)
      (λ h.
        let ih = add_parents-shrinks kvs ps (chain ++ p ∷ []) (queue ++ p ∷ []) rest in
        let new = missing_new chain p kvs h (all p (unfold contains in (rw (eqb_refl p) refl))) in
        omega (arith, ih, new, length-append {0} queue (p ∷ [])))
  where
    rest : (x : Bytes) → contains ps x ≡ true → is_parent kvs x ≡ true
    rest x h = all x (unfold contains in ground arith)

parents_of-is_parent :
    (kvs : Pairs) (k x : Bytes) → contains (parents_of kvs k) x ≡ true → is_parent kvs x ≡ true
unfolding parents_of contains
parents_of-is_parent [] k x h = absurd (cc)
parents_of-is_parent ((j, v) ∷ kvs) k x h = elim (Bool-cases (eqb j k)) [
  | inl e ↦
      let g : (eqb v x || contains (parents_of kvs k) x) ≡ true = rw e at h in
      ground (arith, parents_of-is_parent kvs k x)
  | inr e ↦
      let g : contains (parents_of kvs k) x ≡ true = rw e at h in
      ground (arith, parents_of-is_parent kvs k x)
]

pub walk-empty :
    (kvs : Pairs) (left : ℕ) (chain : List Bytes) → walk kvs left (chain, []) ≡ (chain, [])
unfolding walk
walk-empty kvs zero chain = refl
walk-empty kvs (suc left) chain = walk-empty kvs left chain

walk-finished :
    (kvs : Pairs) (left : ℕ) (chain queue : List Bytes)
    → length queue + missing chain kvs ≤ left
    → (walk kvs left (chain, queue)).1 ≡ []
unfolding walk
walk-finished kvs zero chain [] h = refl
walk-finished kvs zero chain (c ∷ cs) h = absurd (omega arith)
walk-finished kvs (suc left) chain [] h = ap (λ (s : Frontier). s.1) (walk-empty kvs left chain)
walk-finished kvs (suc left) chain (cur ∷ queue) h =
    let s = add_parents (parents_of kvs cur) (chain, queue) in
    walk-finished kvs left (s.0) (s.1) (
      omega (
        arith,
        add_parents-shrinks kvs (parents_of kvs cur) chain queue (parents_of-is_parent kvs cur),
      ))

missing-length : (chain : List Bytes) (kvs : Pairs) → missing chain kvs ≤ length kvs
missing-length chain [] = omega arith
missing-length chain ((k, v) ∷ kvs) = let ih = missing-length chain kvs in ground arith

-- From any type, in any table, the queue is empty when as many rounds are over as the table has pairs, and one.
pub chain_from-finished : (kvs : Pairs) (root : Bytes) → (chain_from kvs root).1 ≡ []
unfolding chain_from
chain_from-finished kvs root =
    walk-finished kvs (suc (length kvs)) (root ∷ []) (root ∷ [])
      (omega (arith, missing-length (root ∷ []) kvs))
