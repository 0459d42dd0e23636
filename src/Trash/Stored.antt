-- ===== src/Trash/Stored.antt =====
-- trash/trash.go: what Put stores, Restore and the listing read back.
use dankgo.Prelude.{
  ℕ, ◌≡◌, refl, sym, ap, ◌∙◌, false, Option, none, some, [], ◌∷◌, ◌++◌, arith, Bool-cases,
  Option-cases, inl, inr, subst, ◌==◌,
}
use mathlib.Core.Option.{none-ne-some, some-injective}
use dankgo.Prelude.Text.{Bytes, eqb, has_prefix, eqb_refl}
use dankgo.Trash.Escape.{AreBytes}
use dankgo.Trash.Tree.{FilePath, Fs, same, same_iff, below, inside}
use dankgo.Trash.Paths.{
  dots, base_name, is_nil, show_rel, show_abs, AreNames, resolve-show_rel, resolve-show_abs,
  is_abs-show_abs, is_abs-show_rel, show_rel_nonempty,
}
use dankgo.Trash.Place.{
  Environment, shared_name, trash_dir_for_path, find_top_dir, stored_below, mount_trash, on_mount,
  choose, place_in, is_valid_shared_trash, fs_device, fs_device_walk_up, home_trash_dir,
}
use dankgo.Trash.Restore.{restore_target, top_of}

pub below_sound : (top q way : FilePath) → below top q ≡ some way → q ≡ way ++ top
unfolding below
below_sound top [] way h = elim (Bool-cases (same top [])) [
  | inl e ↦ rw (sym (some-injective _ _ (rw e at h))) (sym ((same_iff top []).0 e))
  | inr e ↦ absurd (none-ne-some _ (rw e at h))
]
below_sound top (c ∷ cs) way h = elim (Bool-cases (same top (c ∷ cs))) [
  | inl e ↦ rw (sym (some-injective _ _ (rw e at h))) (sym ((same_iff top (c ∷ cs)).0 e))
  | inr e ↦ deeper (below top cs) (λ w g. below_sound top cs w g) refl (rw e at h)
]
  where
    deeper :
        (o : Option FilePath)
        → ((w : FilePath) → below top cs ≡ some w → cs ≡ w ++ top)
        → below top cs ≡ o
        → inside c o ≡ some way
        → c ∷ cs ≡ way ++ top
    deeper none ih e h = absurd (none-ne-some _ h)
    deeper (some w) ih e h = rw (sym (some-injective _ _ h)) (ap (λ x. c ∷ x) (ih w e))

AreBytes-append : (a b : Bytes) → AreBytes a → AreBytes b → AreBytes (a ++ b)
AreBytes-append [] b f g = g
AreBytes-append (c ∷ a) b (h, f) g = (h, AreBytes-append a b f g)

show_rel-AreBytes : (p : FilePath) → AreNames p → AreBytes (show_rel p)
unfolding show_rel
show_rel-AreBytes [] a = (omega arith, tt)
show_rel-AreBytes (c ∷ []) (n, a) = n.1.0
show_rel-AreBytes (c ∷ d ∷ cs) (n, a) =
    AreBytes-append (show_rel (d ∷ cs)) (47 ∷ c) (show_rel-AreBytes (d ∷ cs) a) (omega arith, n.1.0)

AreNames-append : (a b : FilePath) → AreNames (a ++ b) → AreNames a
AreNames-append [] b n = tt
AreNames-append (c ∷ a) b (h, n) = (h, AreNames-append a b n)

-- A stored text that Restore takes back to the path.
abbrev pub Leads : FilePath → FilePath → Bytes → Type 0
Leads trash p stored =
    AreBytes stored × ((is_nil stored ≡ false) × (restore_target trash stored ≡ p))

show_abs-Leads : (trash p : FilePath) → AreNames p → Leads trash p (show_abs p)
unfolding restore_target
show_abs-Leads trash p a = (bytes p a, (nonempty p, rw (is_abs-show_abs p) (resolve-show_abs p a)))
  where
    bytes : (p : FilePath) → AreNames p → AreBytes (show_abs p)
    bytes [] a = unfold show_abs in (omega arith, tt)
    bytes (c ∷ cs) a = unfold show_abs in (omega arith, show_rel-AreBytes (c ∷ cs) a)

    nonempty : (p : FilePath) → is_nil (show_abs p) ≡ false
    nonempty [] = unfold show_abs in refl
    nonempty (c ∷ cs) = unfold show_abs in refl

show_rel-Leads :
    (trash top way : FilePath)
    → AreNames way
    → top_of trash ≡ top
    → Leads trash (way ++ top) (show_rel way)
unfolding restore_target
show_rel-Leads trash top way a e = (
  show_rel-AreBytes way a,
  (
    show_rel_nonempty way a,
    rw (is_abs-show_rel way a) (resolve-show_rel (top_of trash) way a ∙ ap (λ x. way ++ x) e),
  ),
)

top_of-mount_trash :
    (fs : Fs) (uid : Bytes) (top : FilePath)
    → eqb (base_name top) shared_name ≡ false
    → top_of (mount_trash fs uid top) ≡ top
top_of-mount_trash fs uid top h = elim (Bool-cases (is_valid_shared_trash fs (shared_name ∷ top))) [
  | inl e ↦ rw (e, eqb_refl shared_name) refl
  | inr e ↦ rw (e, h) refl
]

stored_below-Leads :
    (trash top p : FilePath) → AreNames p → top_of trash ≡ top → Leads trash p (stored_below top p)
unfolding stored_below
stored_below-Leads trash top p a e = elim (Option-cases (below top p)) [
  | inl h ↦ rw h (show_abs-Leads trash p a)
  | inr (way, h) ↦ elim (Bool-cases (has_prefix (show_rel way) dots)) [
    | inl d ↦ rw (h, d) (show_abs-Leads trash p a)
    | inr d ↦
        let whole = below_sound top p way h in
        rw (h, d)
          (subst (λ x. Leads trash x (show_rel way)) (sym whole)
            (show_rel-Leads trash top way (AreNames-append way top (subst AreNames whole a)) e))
  ]
]

-- The path that trashDirForPath has stored leads back, but below a top directory that is itself named .Trash.
pub trash_dir_for_path-Leads :
    (env : Environment) (fs : Fs) (p trash : FilePath) (stored : Bytes)
    → AreNames p
    → ((top : FilePath) → find_top_dir fs p ≡ some top → eqb (base_name top) shared_name ≡ false)
    → trash_dir_for_path env fs p ≡ some (trash, stored)
    → Leads trash p stored
unfolding trash_dir_for_path
trash_dir_for_path-Leads env fs p trash stored a named = placed (home_trash_dir env)
  where
    from_pair :
        (t : FilePath) (s : Bytes)
        → Leads t p s
        → ◌≡◌ {A = Option (FilePath × Bytes)} (some (t, s)) (some (trash, stored))
        → Leads trash p stored
    from_pair t s l h =
        subst (λ (x : FilePath × Bytes). Leads (x.0) p (x.1)) (some-injective _ _ h) l

    mounted :
        (o : Option FilePath)
        → find_top_dir fs p ≡ o
        → on_mount fs env.uid p o ≡ some (trash, stored)
        → Leads trash p stored
    mounted none e h = absurd (none-ne-some _ h)
    mounted (some top) e h =
        from_pair (mount_trash fs env.uid top) (stored_below top p)
          (stored_below-Leads (mount_trash fs env.uid top) top p a
            (top_of-mount_trash fs env.uid top (named top e)))
          h

    chosen :
        (home : FilePath) (d h : Option ℕ)
        → choose fs env.uid home p d h ≡ some (trash, stored)
        → Leads trash p stored
    chosen home none h e = absurd (none-ne-some _ e)
    chosen home (some d) none e = absurd (none-ne-some _ e)
    chosen home (some d) (some h) e = elim (Bool-cases (d == h)) [
      | inl same_device ↦
          from_pair home (show_abs p) (show_abs-Leads home p a) (rw same_device at e)
      | inr other ↦ mounted (find_top_dir fs p) refl (rw other at e)
    ]

    placed :
        (o : Option FilePath)
        → place_in fs env.uid p o ≡ some (trash, stored)
        → Leads trash p stored
    placed none h = absurd (none-ne-some _ h)
    placed (some home) h = chosen home (fs_device fs p) (fs_device_walk_up fs home) h
