-- ===== src/Files/Watch/Applied.antt =====
-- applyChanged as a whole: the loop over the changed entries, seen through the filter.
use dankgo.Prelude.{
  ◌≡◌, refl, sym, ap, subst, ◌∙◌, inl, inr, Bool, true, false, not, ◌&&◌, Option, none, some, List,
  [], ◌∷◌, arith, if◌then◌else◌, keep, any, All, Option-cases, Bool-cases,
}
use dankgo.Prelude.Text.{Bytes, eqb, eqb_iff}
use dankgo.Prelude.Int.{eqb_ℤ}
use dankgo.Files.Entry.{Entry}
use dankgo.Files.Names.{index_of, Lacks, IsUnique}
use dankgo.Files.Names.Lookup.{eqb_comm, index_of-get_elem?, Lacks-keep}
use dankgo.Files.Filter.{Patterns, matched, passes, visible, filter_view, filter_view-visible}
use dankgo.Files.Watch.Batch.{update_from, update_all}
use dankgo.Files.Watch.Enrich.{replacement, entry_at, put_at, prepend, apply_loop}
use dankgo.Files.Watch.Enriched.{
  Agrees, AllAgree, update_all-IsUnique, Finds, finds, set_at-update_all, keep-update_one,
  update_all-nothing, update_all-update_one,
}

-- What one round of the loop does to the entries.
abbrev Round : Entry → List Entry → Option Entry → List Entry → Type 0
Round e es none es' = es' ≡ es
Round e es (some new) es' =
    (new.name ≡ e.name)
    × (new.hidden ≡ e.hidden)
    × (new.is_dir ≡ e.is_dir)
    × (es' ≡ update_all (new ∷ []) es)
    × ((x : Entry) → entry_at es (index_of e.name es) ≡ some x → eqb_ℤ x.mtime_ms e.mtime_ms ≡ true)

round :
    (e : Entry) (es : List Entry)
    → IsUnique es
    → Round e es
        (replacement e (entry_at es (index_of e.name es)))
        (put_at es (index_of e.name es) (replacement e (entry_at es (index_of e.name es))))
round e es u = elim (Option-cases (index_of e.name es)) [
  | inl missing ↦ rw missing refl
  | inr (i, at) ↦
      let got = index_of-get_elem? e.name es i at in
      let old = got.0 in
      elim (Bool-cases (eqb_ℤ old.mtime_ms e.mtime_ms)) [
        | inl same ↦
            let new = record e { name_key = old.name_key } in
            rw (at, got.1, same)
              (refl, refl, refl, set_at-update_all new es i u at, λ x h. ground arith)
        | inr other ↦ rw (at, got.1, other) refl
      ]
]

Lacks-prepend :
    (n : Bytes) (o : Option Entry) (es : List Entry)
    → ((e : Entry) → o ≡ some e → eqb e.name n ≡ false)
    → Lacks n es
    → Lacks n (prepend o es)
Lacks-prepend n none es h l = l
Lacks-prepend n (some e) es h l = (h e refl, l)

replacement-name :
    (e : Entry) (o : Option Entry) (new : Entry) → replacement e o ≡ some new → new.name ≡ e.name
replacement-name e none new h = cc
replacement-name e (some old) new h = ground arith

-- What is applied has names of changed entries.
Lacks-apply_loop : (n : Bytes) (cs es : List Entry) → Lacks n cs → Lacks n (apply_loop cs es).1
unfolding apply_loop
Lacks-apply_loop n [] es h = tt
Lacks-apply_loop n (e ∷ cs) es (h, hs) =
    let o = entry_at es (index_of e.name es) in
    Lacks-prepend n (replacement e o) _
      (λ new same. ap (λ m. eqb m n) (replacement-name e o new same) ∙ h)
      (Lacks-apply_loop n cs (put_at es (index_of e.name es) (replacement e o)) hs)

Agrees-update_all :
    (c new : Entry) (es : List Entry)
    → eqb new.name c.name ≡ false
    → All (Agrees c) es
    → All (Agrees c) (update_all (new ∷ []) es)
unfolding update_all update_from
Agrees-update_all c new [] h a = tt
Agrees-update_all c new (x ∷ xs) h (a, as') = elim (Bool-cases (eqb new.name x.name)) [
  | inl same ↦
      rw same
        (λ p q. absurd (ground (arith, eqb_comm new.name c.name)), Agrees-update_all c new xs h as')
  | inr other ↦ rw other (a, Agrees-update_all c new xs h as')
]

AllAgree-update_all :
    (cs : List Entry) (new : Entry) (es : List Entry)
    → Lacks new.name cs
    → AllAgree cs es
    → AllAgree cs (update_all (new ∷ []) es)
AllAgree-update_all [] new es l a = tt
AllAgree-update_all (c ∷ cs) new es (l, ls) (a, as') = (
  Agrees-update_all c new es (eqb_comm new.name c.name ∙ l) a,
  AllAgree-update_all cs new es ls as',
)

module _ (shows : Entry → Bool)
    (by : (x y : Entry)
      → x.name ≡ y.name
      → x.hidden ≡ y.hidden
      → x.is_dir ≡ y.is_dir
      → shows x ≡ shows y) where
  record Applied (cs es : List Entry) (r : List Entry × List Entry) : Type 0 where
    unique : IsUnique r.0
    shown : keep shows r.0 ≡ update_all (keep shows r.1) (keep shows es)

  same_shown :
      (e new : Entry) (es xs : List Entry)
      → eqb new.name e.name ≡ true
      → new.hidden ≡ e.hidden
      → new.is_dir ≡ e.is_dir
      → ((x : Entry)
          → entry_at es (index_of e.name es) ≡ some x
          → eqb_ℤ x.mtime_ms e.mtime_ms ≡ true)
      → All (Finds e.name es) xs
      → All (Agrees e) xs
      → All (λ x. eqb new.name x.name ≡ true → shows x ≡ shows new) xs
  same_shown e new es [] n hid dir fresh f a = tt
  same_shown e new es (x ∷ xs) n hid dir fresh (f, fs) (a, as') = (
    λ same.
        let n1 = (eqb_iff new.name e.name).0 n in
        let n2 = (eqb_iff new.name x.name).0 same in
        let xe = sym n2 ∙ n1 in
        let agrees =
          a ((eqb_iff e.name x.name).1 (sym xe)) (fresh x (f ((eqb_iff x.name e.name).1 xe))) in
        by x new (sym n2) (agrees.0 ∙ sym hid) (agrees.1 ∙ sym dir),
    same_shown e new es xs n hid dir fresh fs as',
  )

  last :
      (new : Entry) (xs es : List Entry)
      → Lacks new.name xs
      → update_all (keep shows xs) (update_all (keep shows (new ∷ [])) (keep shows es))
        ≡ update_all (keep shows (new ∷ xs)) (keep shows es)
  last new xs es l = elim (Bool-cases (shows new)) [
    | inl shown ↦ rw shown (
        update_all-update_one shows by new (keep shows xs) (keep shows es)
          (Lacks-keep new.name shows xs l))
    | inr hidden ↦
        rw hidden (ap (update_all (keep shows xs)) (update_all-nothing shows by (keep shows es)))
  ]

  step :
      (e : Entry) (cs es : List Entry)
      → Lacks e.name cs
      → IsUnique es
      → AllAgree (e ∷ cs) es
      → ((es' : List Entry) → IsUnique es' → AllAgree cs es' → Applied cs es' (apply_loop cs es'))
      → (o : Option Entry) (es' : List Entry) → Round e es o es'
      → Applied (e ∷ cs) es ((apply_loop cs es').0, prepend o (apply_loop cs es').1)
  step e cs es le u (a, as') ih none es' r =
      let k = ih es' (rw r u) (rw r as') in
      record {
        unique = k.unique;
        shown = k.shown ∙ ap (λ l. update_all (keep shows (apply_loop cs es').1) (keep shows l)) r;
      }
  step e cs es le u (a, as') ih (some new) es' (n, hid, dir, eq, fresh) =
      let named = (eqb_iff new.name e.name).1 n in
      let lacks = subst (λ m. Lacks m cs) (sym n) le in
      let k =
        ih es' (rw eq (update_all-IsUnique (new ∷ []) es u))
          (rw eq (AllAgree-update_all cs new es lacks as')) in
      let one =
        keep-update_one shows by new es
          (same_shown e new es es named hid dir fresh (finds e.name es u) a) in
      record {
        unique = k.unique;
        shown =
            k.shown
            ∙ (ap (λ l. update_all (keep shows (apply_loop cs es').1) (keep shows l)) eq
                ∙ (ap (update_all (keep shows (apply_loop cs es').1)) one
                    ∙ last new (apply_loop cs es').1 es (Lacks-apply_loop new.name cs es' lacks)));
      }

  apply_loop-Applied :
      (cs es : List Entry)
      → IsUnique cs
      → IsUnique es
      → AllAgree cs es
      → Applied cs es (apply_loop cs es)
  unfolding apply_loop
  apply_loop-Applied [] es uc u a = record {
    unique = u;
    shown = sym (update_all-nothing shows by (keep shows es));
  }
  apply_loop-Applied (e ∷ cs) es (le, uc) u a =
      step e cs es le u a (λ es' u' a'. apply_loop-Applied cs es' uc u' a')
        (replacement e (entry_at es (index_of e.name es))) _ (round e es u)

visible-by :
    (g : Patterns) (include_hidden : Bool) (filters : List Bytes) (x y : Entry)
    → x.name ≡ y.name
    → x.hidden ≡ y.hidden
    → x.is_dir ≡ y.is_dir
    → visible g include_hidden filters x ≡ visible g include_hidden filters y
unfolding visible passes
visible-by g include_hidden [] x y n h d = ground arith
visible-by g include_hidden (f ∷ fs) x y n h d = λ i.
    not (h i && not include_hidden)
    && (if d i then true else any (λ p. matched (g.match p (g.to_lower (n i)))) (f ∷ fs))

module _ (g : Patterns) (include_hidden : Bool) (filters : List Bytes) where
  -- The view after the loop is the view before with the applied and shown entries taken by name.
  pub filter_view-apply_loop :
      (cs es : List Entry)
      → IsUnique cs
      → IsUnique es
      → AllAgree cs es
      → IsUnique (apply_loop cs es).0
        × (filter_view g (apply_loop cs es).0 include_hidden filters
            ≡ update_all
                (filter_view g (apply_loop cs es).1 include_hidden filters)
                (filter_view g es include_hidden filters))
  filter_view-apply_loop cs es uc u a =
      let r =
        apply_loop-Applied (visible g include_hidden filters) (visible-by g include_hidden filters)
          cs es uc u a in
      (
        r.unique,
        rw
            (
              filter_view-visible g (apply_loop cs es).0 include_hidden filters,
              filter_view-visible g (apply_loop cs es).1 include_hidden filters,
              filter_view-visible g es include_hidden filters,
            )
            r.shown,
      )
