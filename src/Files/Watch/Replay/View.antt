-- ===== src/Files/Watch/Replay/View.antt =====
-- The batch of `diff` takes a client that shows the view before to the view now.
use dankgo.Prelude.{
  ◌≡◌, refl, sym, ap, ap₂, ◌∙◌, inl, inr, Bool, true, false, not, ◌&&◌, ◌||◌, List, [], ◌∷◌, ◌++◌,
  arith, keep, All, Bool-cases,
}
use dankgo.Prelude.Text.{Bytes, eqb}
use dankgo.Files.Entry.{Entry}
use dankgo.Files.Names.{has, names_of, IsUnique}
use dankgo.Files.Names.Lookup.{keep_comm}
use dankgo.Files.Watch.Batch.{Batch, remove_names, update_from, update_all, insert_all, replay}
use dankgo.Files.Watch.Diff.{Scan, scan_before, scan_view, diff}
use dankgo.Files.Watch.Replay.Insertion.{
  inserted, updated, insert_all-places, added-scan_view, added_at-scan_view, changed-scan_view,
  removed-scan_view,
}
use dankgo.Files.Watch.Replay.Order.{named_in, keep_congr}
use dankgo.Files.Watch.Replay.Kept.{in_order-names, removed-scan_before, existed-scan_before}
use dankgo.Files.Watch.Replay.Removal.{
  remove_names-keep, keep-keep, keep-All, has-append, has-names_of-keep, named_in_self, All-keep,
}
use dankgo.Files.Watch.Replay.Update.{untouched, update_from-other, Supplies-self, update_all_lem}

All-map {ℓ κ} :
    {A : Type ℓ} (P Q : A → Type κ) (xs : List A) → ((x : A) → P x → Q x) → All P xs → All Q xs
All-map P Q [] f h = tt
All-map P Q (x ∷ xs) f (h, hs) = (f x h, All-map P Q xs f hs)

All-and {ℓ κ} :
    {A : Type ℓ} (P Q : A → Type κ) (xs : List A) → All P xs → All Q xs → All (λ x. P x × Q x) xs
All-and P Q [] h k = tt
All-and P Q (x ∷ xs) (h, hs) (k, ks) = ((h, k), All-and P Q xs hs ks)

keep_none {ℓ} : {A : Type ℓ} (p : A → Bool) (xs : List A) → ((x : A) → p x ≡ false) → keep p xs ≡ []
keep_none p [] h = refl
keep_none p (x ∷ xs) h = rw (h x) (keep_none p xs h)

keep_same {ℓ} :
    {A : Type ℓ} (p q : A → Bool) (xs : List A) → ((x : A) → p x ≡ q x) → keep p xs ≡ keep q xs
keep_same p q [] h = refl
keep_same p q (x ∷ xs) h = ground (arith, h x, keep_same p q xs h)

update_all-nil : (xs : List Entry) → update_all [] xs ≡ xs
unfolding update_all update_from
update_all-nil [] = refl
update_all-nil (x ∷ xs) = ap (λ l. x ∷ l) (update_all-nil xs)

module _ (before view : List Entry) (touched : List Bytes) (before_unique : IsUnique before)
    (view_unique : IsUnique view)
    (agree : keep (untouched touched) before ≡ keep (untouched touched) view) where
  abbrev scan : Scan
  scan = scan_before view (names_of before) 0

  abbrev changes : Batch
  changes = scan_view scan.existed touched scan.in_order 0 view

  -- A name has existed if it is in both listings.
  has-existed :
      (n : Bytes) → has scan.existed n ≡ (has (names_of before) n && has (names_of view) n)
  has-existed n =
      ap (λ ns. has ns n) (existed-scan_before view view_unique before 0)
      ∙ has-names_of-keep (has (names_of view)) before n

  has-removed :
      (n : Bytes) → has scan.removed n ≡ (has (names_of before) n && not (has (names_of view) n))
  has-removed n =
      ap (λ ns. has ns n) (removed-scan_before view view_unique before 0)
      ∙ has-names_of-keep (λ m. not (has (names_of view) m)) before n

  has-moved :
      (n : Bytes)
      → has changes.removed n
        ≡ (has (names_of view) n && (has scan.existed n && (has touched n && not scan.in_order)))
  has-moved n =
      ap (λ ns. has ns n) (removed-scan_view scan.existed touched scan.in_order 0 view)
      ∙ has-names_of-keep (λ m. has scan.existed m && (has touched m && not scan.in_order)) view n

  -- What the client keeps: the entries that are still shown and not moved.
  abbrev stays : Entry → Bool
  stays e = named_in view e && not (has touched e.name && not scan.in_order)

  stays_exact :
      (e : Entry)
      → named_in before e ≡ true
      → not (has (scan.removed ++ changes.removed) e.name) ≡ stays e
  stays_exact e h =
      let n = e.name in
      ap not (has-append scan.removed changes.removed n ∙ ap₂ ◌||◌ (has-removed n) (has-moved n))
      ∙ rest (has (names_of before) n) (has (names_of view) n) (has touched n) (has scan.existed n)
          scan.in_order h (has-existed n)
    where
      rest :
          (b v t x o : Bool)
          → b ≡ true
          → x ≡ (b && v)
          → not ((b && not v) || (v && (x && (t && not o)))) ≡ (v && not (t && not o))
      rest b v t x o hb hx = ground arith

  removed_all : remove_names (scan.removed ++ changes.removed) before ≡ keep stays before
  removed_all =
      remove_names-keep (scan.removed ++ changes.removed) before before_unique
      ∙ keep_congr _ _ before (All-map _ _ before stays_exact (named_in_self before))

  -- What the insertions start from.
  abbrev base : List Entry
  base = keep (λ e. not (inserted scan.existed touched scan.in_order e)) view

  base_exact :
      (e : Entry)
      → named_in view e ≡ true
      → not (inserted scan.existed touched scan.in_order e)
        ≡ (named_in before e && not (has touched e.name && not scan.in_order))
  base_exact e h =
      rest (has (names_of before) e.name) (has (names_of view) e.name) (has touched e.name)
        (has scan.existed e.name) scan.in_order h (has-existed e.name)
    where
      rest :
          (b v t x o : Bool)
          → v ≡ true
          → x ≡ (b && v)
          → not (not x || (t && not o)) ≡ (b && not (t && not o))
      rest b v t x o hv hx = ground arith

  base-view :
      base ≡ keep (λ e. named_in before e && not (has touched e.name && not scan.in_order)) view
  base-view = keep_congr _ _ view (All-map _ _ view base_exact (named_in_self view))

  -- The untouched entries of either listing are in the other.
  both : keep (λ e. named_in view e && untouched touched e) before ≡ keep (untouched touched) view
  both =
      sym (keep-keep (untouched touched) (named_in view) before)
      ∙ (keep_comm (untouched touched) (named_in view) before
          ∙ (ap (keep (named_in view)) agree
              ∙ (keep_comm (named_in view) (untouched touched) view
                  ∙ ap (keep (untouched touched))
                      (keep-All (named_in view) view (named_in_self view)))))

  both_now :
      keep (λ e. named_in before e && untouched touched e) view ≡ keep (untouched touched) before
  both_now =
      sym (keep-keep (untouched touched) (named_in before) view)
      ∙ (keep_comm (untouched touched) (named_in before) view
          ∙ (ap (keep (named_in before)) (sym agree)
              ∙ (keep_comm (named_in before) (untouched touched) before
                  ∙ ap (keep (untouched touched))
                      (keep-All (named_in before) before (named_in_self before)))))

  abbrev taken : List Entry
  taken = keep (updated scan.existed touched scan.in_order) view

  settled_in_place : scan.in_order ≡ true → update_all taken (keep stays before) ≡ base
  settled_in_place h =
      ap (update_all taken) stays_here
      ∙ (update_all_lem touched taken (keep (named_in view) before) (keep (named_in before) view)
            (in_order-names view view_unique before h) same_untouched other supplied
          ∙ sym base_here)
    where
      stays_here : keep stays before ≡ keep (named_in view) before
      stays_here = keep_same _ _ before (λ e. ground arith)

      base_here : base ≡ keep (named_in before) view
      base_here = base-view ∙ keep_same _ _ view (λ e. ground arith)

      same_untouched :
          keep (untouched touched) (keep (named_in view) before)
          ≡ keep (untouched touched) (keep (named_in before) view)
      same_untouched =
          keep-keep (untouched touched) (named_in view) before
          ∙ (both
              ∙ (sym agree ∙ sym (keep-keep (untouched touched) (named_in before) view ∙ both_now)))

      other : (x : Entry) → has touched x.name ≡ false → update_from taken x ≡ x
      other =
          update_from-other touched (updated scan.existed touched scan.in_order) view
            (λ e p. ground arith)

      is_updated :
          (e : Entry)
          → named_in view e ≡ true
          → named_in before e ≡ true
          → has touched e.name ≡ true
          → updated scan.existed touched scan.in_order e ≡ true
      is_updated e v b t = ground (arith, has-existed e.name)

      supplied :
          All
            (λ y.
              has touched y.name ≡ true
              → (x : Entry) → eqb y.name x.name ≡ true
              → update_from taken x ≡ y)
            (keep (named_in before) view)
      supplied =
          All-map _ _ (keep (named_in before) view) (λ y p t. p.0.0 (is_updated y p.0.1 p.1 t))
            (All-keep _ (named_in before) view (
              All-and _ _ view
                (Supplies-self (updated scan.existed touched scan.in_order) view view_unique)
                (named_in_self view)))

  settled_by_moving : scan.in_order ≡ false → update_all taken (keep stays before) ≡ base
  settled_by_moving h =
      ap (λ cs. update_all cs (keep stays before)) (keep_none _ view (λ e. ground arith))
      ∙ (update_all-nil (keep stays before)
          ∙ (keep_same _ (λ e. named_in view e && untouched touched e) before (λ e. ground arith)
              ∙ (both
                  ∙ (sym agree
                      ∙ (sym both_now
                          ∙ (keep_same _ _ view (λ e. ground arith) ∙ sym base-view))))))

  settled : update_all taken (keep stays before) ≡ base
  settled = elim (Bool-cases scan.in_order) [
    | inl h ↦ settled_in_place h
    | inr h ↦ settled_by_moving h
  ]

  replay_parts :
      replay (diff (names_of before) touched view) before
      ≡ insert_all changes.added changes.added_at
          (update_all changes.changed (remove_names (scan.removed ++ changes.removed) before))
  unfolding replay diff
  replay_parts = refl

  -- A client that shows the entries before shows the view after it has replayed the batch, where the
  -- names of either are unique and the untouched entries are the same in both.
  pub replay-diff : replay (diff (names_of before) touched view) before ≡ view
  replay-diff =
      replay_parts
      ∙ (rw
          (
            removed_all,
            changed-scan_view scan.existed touched scan.in_order 0 view,
            added-scan_view scan.existed touched scan.in_order 0 view,
            added_at-scan_view scan.existed touched scan.in_order 0 view,
            settled,
          )
          (insert_all-places (inserted scan.existed touched scan.in_order) view))
