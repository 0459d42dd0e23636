-- ===== src/Desktop/Chain/Reach.antt =====
-- desktop/mime.go: the chain of mimeChain has exactly the type and its ancestors, each once.
use dankgo.Prelude.{
  ℕ, zero, suc, ◌≡◌, refl, sym, ap, ◌∙◌, ◌↔◌, Bool, true, false, not, ◌&&◌, ◌||◌, List, [], ◌∷◌,
  arith, Bool-cases, inl, inr, subst, length,
}
use dankgo.Prelude.Text.{Bytes, eqb, eqb_iff, eqb_refl}
use dankgo.Prelude.Members.{contains, AreDistinct}
use dankgo.Desktop.Chain.{
  Pairs, Frontier, Tables, parents_of, add_parents, walk, chain_from, canonical_mime, mime_chain,
}
use dankgo.Desktop.Chain.Walk.{
  add_parents-chain, add_parents-queue, add_parents-AreDistinct, chain_from-finished,
}

-- The type itself, and the parents of what is reached.
pub data Reach (kvs : Pairs) (root : Bytes) : Bytes → Type 0 where
  start : (x : Bytes) → x ≡ root → Reach kvs root x
  parent :
      (x y : Bytes) → Reach kvs root x → contains (parents_of kvs x) y ≡ true → Reach kvs root y

record Invariant (kvs : Pairs) (root : Bytes) (chain queue : List Bytes) : Type 0 where
  rooted : contains chain root ≡ true
  sound : (x : Bytes) → contains chain x ≡ true → Reach kvs root x
  queued : (x : Bytes) → contains queue x ≡ true → contains chain x ≡ true
  closed :
      (x y : Bytes)
      → contains chain x ≡ true
      → contains queue x ≡ false
      → contains (parents_of kvs x) y ≡ true
      → contains chain y ≡ true
  distinct : AreDistinct chain

module _ (kvs : Pairs) (root cur : Bytes) (chain queue : List Bytes)
    (i : Invariant kvs root chain (cur ∷ queue)) where
  abbrev ps : List Bytes
  ps = parents_of kvs cur

  abbrev grown : Frontier
  grown = add_parents ps (chain, queue)

  cur_queued : contains (cur ∷ queue) cur ≡ true
  unfolding contains
  cur_queued = rw (eqb_refl cur) refl

  cur_in : contains chain cur ≡ true
  cur_in = i.queued cur cur_queued

  or_in : (a b : Bool) → a ≡ true → (a || b) ≡ true
  or_in a b h = rw h refl

  kept : (x : Bytes) → contains chain x ≡ true → contains (grown.0) x ≡ true
  kept x h = add_parents-chain ps chain queue x ∙ or_in _ _ h

  sound_after : (x : Bytes) → contains (grown.0) x ≡ true → Reach kvs root x
  sound_after x h = elim (Bool-cases (contains chain x)) [
    | inl e ↦ i.sound x e
    | inr e ↦
        let either : (contains chain x || contains ps x) ≡ true =
          sym (add_parents-chain ps chain queue x) ∙ h in
        parent cur x (i.sound cur cur_in) (rw e at either)
  ]

  queued_after : (x : Bytes) → contains (grown.1) x ≡ true → contains (grown.0) x ≡ true
  queued_after x h =
      let old = i.queued x in
      let new : (contains queue x || (contains ps x && not (contains chain x))) ≡ true =
        sym (add_parents-queue ps chain queue x) ∙ h in
      add_parents-chain ps chain queue x ∙ (unfold contains in ground arith)

  closed_after :
      (x y : Bytes)
      → contains (grown.0) x ≡ true
      → contains (grown.1) x ≡ false
      → contains (parents_of kvs x) y ≡ true
      → contains (grown.0) y ≡ true
  closed_after x y h out p =
      let either : (contains chain x || contains ps x) ≡ true =
        sym (add_parents-chain ps chain queue x) ∙ h in
      let neither : (contains queue x || (contains ps x && not (contains chain x))) ≡ false =
        sym (add_parents-queue ps chain queue x) ∙ out in
      let old : contains chain x ≡ true = ground arith in
      elim (Bool-cases (eqb cur x)) [
        | inl e ↦
            let new : contains ps y ≡ true =
              ap (λ z. contains (parents_of kvs z) y) ((eqb_iff cur x).0 e) ∙ p in
            add_parents-chain ps chain queue y ∙ (rw new (or_true (contains chain y)))
        | inr e ↦ kept y (i.closed x y old (unfold contains in (rw e (ground arith))) p)
      ]
    where
      or_true : (b : Bool) → (b || true) ≡ true
      or_true b = ground arith

  step-Invariant : Invariant kvs root (grown.0) (grown.1)
  step-Invariant = record {
    rooted = kept root i.rooted;
    sound = sound_after;
    queued = queued_after;
    closed = closed_after;
    distinct = add_parents-AreDistinct ps chain queue i.distinct;
  }

walk-Invariant :
    (kvs : Pairs) (root : Bytes) (left : ℕ) (chain queue : List Bytes)
    → Invariant kvs root chain queue
    → Invariant kvs root ((walk kvs left (chain, queue)).0) ((walk kvs left (chain, queue)).1)
unfolding walk
walk-Invariant kvs root zero chain queue i = i
walk-Invariant kvs root (suc left) chain [] i = walk-Invariant kvs root left chain [] i
walk-Invariant kvs root (suc left) chain (cur ∷ queue) i =
    let s = add_parents (parents_of kvs cur) (chain, queue) in
    walk-Invariant kvs root left (s.0) (s.1) (step-Invariant kvs root cur chain queue i)

start-Invariant : (kvs : Pairs) (root : Bytes) → Invariant kvs root (root ∷ []) (root ∷ [])
unfolding contains
start-Invariant kvs root = record {
  rooted = rw (eqb_refl root) refl;
  sound = λ x h. start x (sym ((eqb_iff root x).0 (ground arith)));
  queued = λ x h. h;
  closed = λ x y h out p. absurd (cc);
  distinct = (refl, tt);
}

chain_from-Invariant :
    (kvs : Pairs) (root : Bytes)
    → Invariant kvs root ((chain_from kvs root).0) ((chain_from kvs root).1)
unfolding chain_from
chain_from-Invariant kvs root =
    walk-Invariant kvs root (suc (length kvs)) (root ∷ []) (root ∷ []) (start-Invariant kvs root)

reached :
    (kvs : Pairs) (root x : Bytes) → Reach kvs root x → contains ((chain_from kvs root).0) x ≡ true
reached kvs root x (start _ e) =
    subst (λ z. contains ((chain_from kvs root).0) z ≡ true) (sym e)
      (let i = chain_from-Invariant kvs root in i.rooted)
reached kvs root y (parent x _ r p) =
    let i = chain_from-Invariant kvs root in
    i.closed x y (reached kvs root x r)
      (ap (λ q. contains q x) (chain_from-finished kvs root) ∙ (unfold contains in refl)) p

-- A type is in the chain exactly when it is the canonical type or is reached from it by going to a parent any
-- number of times, and none is there twice.
pub mime_chain-Reach :
    (t : Tables) (mime : Bytes)
    → ((x : Bytes)
        → (contains (mime_chain t mime) x ≡ true) ↔ Reach t.subclasses (canonical_mime t mime) x)
      × AreDistinct (mime_chain t mime)
unfolding mime_chain
mime_chain-Reach t mime =
    let root = canonical_mime t mime in
    let i = chain_from-Invariant t.subclasses root in
    (λ x. (i.sound x, reached t.subclasses root x), i.distinct)
