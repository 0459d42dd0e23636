-- ===== src/Files/Watch/Replay/Kept.antt =====
-- Where the order test of `diff` passes, the names that stay stand in the same order before and now.
use dankgo.Prelude.{
  ℕ, suc, ◌≤◌, ◌≡◌, refl, sym, ap, ap₂, ◌∙◌, inl, inr, Bool, true, false, not, List, [], ◌∷◌, arith,
  keep, All, take, drop, Option-cases,
}
use dankgo.Prelude.Text.{eqb, eqb_iff}
use dankgo.Files.Entry.{Entry}
use dankgo.Files.Names.{has, names_of, Lacks, IsUnique}
use dankgo.Files.Names.Lookup.{eqb_comm, Lacks-has-names_of}
use dankgo.Files.Watch.Diff.{position, scan_before}
use dankgo.Files.Watch.Replay.Order.{
  named_in, keep_congr, All-take, All-drop, All-take-le, keep-drop_le, position-none, has-position,
  Splits, position-Splits,
}

keep_nothing : (xs : List Entry) → keep (named_in []) xs ≡ []
unfolding has names_of
keep_nothing [] = refl
keep_nothing (x ∷ xs) = keep_nothing xs

All-nothing : (xs : List Entry) → All (λ e. named_in [] e ≡ false) xs
unfolding has names_of
All-nothing [] = tt
All-nothing (x ∷ xs) = (refl, All-nothing xs)

-- Entries without the name of x: x makes no difference to what they are looked up in.
named_in-cons :
    (x : Entry) (b xs : List Entry)
    → Lacks x.name xs
    → All (λ e. named_in (x ∷ b) e ≡ named_in b e) xs
unfolding has names_of
named_in-cons x b [] l = tt
named_in-cons x b (y ∷ ys) l = (ground (arith, eqb_comm x.name y.name), named_in-cons x b ys l.1)

All-false-cons :
    (x : Entry) (b xs : List Entry)
    → Lacks x.name xs
    → All (λ e. named_in b e ≡ false) xs
    → All (λ e. named_in (x ∷ b) e ≡ false) xs
unfolding has names_of
All-false-cons x b [] l a = tt
All-false-cons x b (y ∷ ys) l a =
    (ground (arith, eqb_comm x.name y.name), All-false-cons x b ys l.1 a.1)

named_in-head :
    (x v : Entry) (b : List Entry) → eqb v.name x.name ≡ true → named_in (x ∷ b) v ≡ true
unfolding has names_of
named_in-head x v b h = ground (arith, eqb_comm v.name x.name)

keep-cons_true {ℓ} :
    {A : Type ℓ} (q : A → Bool) (v : A) (xs : List A) → q v ≡ true → keep q (v ∷ xs) ≡ v ∷ keep q xs
keep-cons_true q v xs h = rw h

keep-cons_false {ℓ} :
    {A : Type ℓ} (q : A → Bool) (v : A) (xs : List A) → q v ≡ false → keep q (v ∷ xs) ≡ keep q xs
keep-cons_false q v xs h = rw h

module _ (view : List Entry) (unique : IsUnique view) where
  record Kept (b : List Entry) (next : ℕ) : Type 0 where
    same : names_of (keep (named_in view) b) ≡ names_of (keep (named_in b) (drop next view))
    new : All (λ e. named_in b e ≡ false) (take next view)

  in_order-here :
      (x : Entry) (b : List Entry) (next i : ℕ)
      → next ≤ i
      → named_in view x ≡ true
      → Splits x.name view i
      → Kept b (suc i)
      → Kept (x ∷ b) next
  unfolding names_of
  in_order-here x b next i h inside s k = record {
    same = same_names;
    new = All-take-le _ next i view h fresh;
  }
    where
      fresh : All (λ e. named_in (x ∷ b) e ≡ false) (take i view)
      fresh =
          All-false-cons x b (take i view) s.before
            (All-take-le _ i (suc i) view (omega arith) k.new)

      now :
          keep (named_in (x ∷ b)) (drop next view) ≡ s.here ∷ keep (named_in b) (drop (suc i) view)
      now =
          keep-drop_le (named_in (x ∷ b)) next i view h fresh
          ∙ (ap (keep (named_in (x ∷ b))) s.at
              ∙ (keep-cons_true (named_in (x ∷ b)) s.here (drop (suc i) view)
                    (named_in-head x s.here b s.named)
                  ∙ ap (λ l. s.here ∷ l)
                      (keep_congr _ _ _ (named_in-cons x b (drop (suc i) view) s.behind))))

      same_names :
          names_of (keep (named_in view) (x ∷ b))
          ≡ names_of (keep (named_in (x ∷ b)) (drop next view))
      same_names =
          ap names_of (keep-cons_true (named_in view) x b inside)
          ∙ (ap₂ (λ n l. n ∷ l) (sym ((eqb_iff s.here.name x.name).0 s.named)) k.same
              ∙ sym (ap names_of now))

  scan_before-Kept :
      (b : List Entry) (next : ℕ)
      → (scan_before view (names_of b) next).in_order ≡ true
      → Kept b next
  unfolding scan_before names_of
  scan_before-Kept [] next h = record {
    same = sym (ap names_of (keep_nothing (drop next view)));
    new = All-nothing (take next view);
  }
  scan_before-Kept (x ∷ b) next h = elim (Option-cases (position x.name view)) [
    | inl gone ↦
        let k = scan_before-Kept b next (ground arith) in
        let off = Lacks-has-names_of x.name view (position-none x.name view gone) in
        let out = position-none x.name view gone in
        record {
          same =
              ap names_of (keep-cons_false (named_in view) x b off)
              ∙ (k.same
                  ∙ sym (
                      ap names_of (
                        keep_congr _ _ _
                          (named_in-cons x b (drop next view) (All-drop _ next view out)))));
          new = All-false-cons x b (take next view) (All-take _ next view out) k.new;
        }
    | inr (i, there) ↦
        in_order-here x b next i (ground arith) (has-position x.name view i there)
          (position-Splits x.name view i unique there) (scan_before-Kept b (suc i) (ground arith))
  ]

  -- The names that stay, in the order before and in the order now.
  pub in_order-names :
      (b : List Entry)
      → (scan_before view (names_of b) 0).in_order ≡ true
      → names_of (keep (named_in view) b) ≡ names_of (keep (named_in b) view)
  in_order-names b h = (scan_before-Kept b 0 h).same

  -- What the scan removes are the names that the view has not, and what has existed are the others.
  pub removed-scan_before :
      (b : List Entry) (next : ℕ)
      → (scan_before view (names_of b) next).removed
        ≡ names_of (keep (λ e. not (named_in view e)) b)
  unfolding scan_before names_of
  removed-scan_before [] next = refl
  removed-scan_before (x ∷ b) next = elim (Option-cases (position x.name view)) [
    | inl gone ↦ ground (
      arith,
      removed-scan_before b next,
      Lacks-has-names_of x.name view (position-none x.name view gone),
    )
    | inr (i, there) ↦
        ground (arith, removed-scan_before b (suc i), has-position x.name view i there)
  ]

  pub existed-scan_before :
      (b : List Entry) (next : ℕ)
      → (scan_before view (names_of b) next).existed ≡ names_of (keep (named_in view) b)
  unfolding scan_before names_of
  existed-scan_before [] next = refl
  existed-scan_before (x ∷ b) next = elim (Option-cases (position x.name view)) [
    | inl gone ↦ ground (
      arith,
      existed-scan_before b next,
      Lacks-has-names_of x.name view (position-none x.name view gone),
    )
    | inr (i, there) ↦
        ground (arith, existed-scan_before b (suc i), has-position x.name view i there)
  ]
