-- ===== src/Trash/Outcome.antt =====
-- trash/trash.go: Put from its first step to its last, and both of its outcomes.
use dankgo.Prelude.{
  ℕ, ◌≡◌, refl, Bool, true, false, ◌||◌, Option, none, some, ◌∷◌, arith, Bool-cases, inl, inr,
  subst,
}
use dankgo.Prelude.Text.{Bytes}
use dankgo.Trash.Tree.{
  FilePath, Node, Fs, Refusals, same_refl, exists, mkdir_all, create_new, new_file, device_at,
  parent_of,
}
use dankgo.Trash.Paths.{base_name}
use dankgo.Trash.Place.{Environment, files_name, info_name, trash_dir_for_path}
use dankgo.Trash.Info.{info_text}
use dankgo.Trash.Put.{
  Entry, put, files_at, info_at, is_taken, unique_name, ensure_trash_dirs, write_trash_info,
  entry_of, move, put_as, put_made, put_placed, put_found, then_info,
}
use dankgo.Trash.Keeps.{Keeps, Keeps-trans, mkdir_all-Keeps, create_new-Keeps}
use dankgo.Trash.Naming.{unique_name-free}
use dankgo.Trash.Safety.{IsTree, Moved, Recorded, Outcome, Keeps-free, move-Outcome}

is_taken-free :
    (fs : Fs) (trash : FilePath) (name : Bytes)
    → is_taken fs trash name ≡ false
    → (exists fs (files_at trash name) ≡ false) × (exists fs (info_at trash name) ≡ false)
unfolding is_taken
is_taken-free fs trash name h = (ground arith, ground arith)

module _ (no : Refusals) (env : Environment) (when : Bytes) (fs : Fs) (p : FilePath)
    (tree : IsTree fs) where
  create_new-written :
      (q : FilePath) (text : Bytes) (mid : Fs)
      → (create_new no q text mid).1 ≡ true
      → (d : ℕ) × ((create_new no q text mid).0 q ≡ some (new_file d text))
  unfolding create_new
  create_new-written q text mid = elim (Bool-cases (exists mid q || no.create q)) [
    | inl e ↦ rw e (λ h. absurd (cc))
    | inr e ↦ elim (Bool-cases (no.write q)) [
      | inl w ↦ rw (e, w) (λ h. absurd (cc))
      | inr w ↦ rw (e, w) (λ h. (device_at (mid (parent_of q)), rw (same_refl q) refl))
    ]
  ]

  ensure_trash_dirs-Keeps : (trash : FilePath) → Keeps fs ((ensure_trash_dirs no trash fs).0)
  unfolding ensure_trash_dirs
  ensure_trash_dirs-Keeps trash =
      then_info-Keeps (mkdir_all no (files_name ∷ trash) fs)
        (mkdir_all-Keeps no (files_name ∷ trash) fs)
    where
      then_info-Keeps : (r : Fs × Bool) → Keeps fs (r.0) → Keeps fs ((then_info no trash r).0)
      then_info-Keeps (mid, false) k = k
      then_info-Keeps (mid, true) k =
          Keeps-trans fs mid ((mkdir_all no (info_name ∷ trash) mid).0) k
            (mkdir_all-Keeps no (info_name ∷ trash) mid)

  module _ (n : Node) (at : fs p ≡ some n) (trash : FilePath) (stored : Bytes)
      (place : trash_dir_for_path env fs p ≡ some (trash, stored)) where
    written-Outcome :
        (name : Bytes) (r : Fs × Bool)
        → Keeps fs (r.0)
        → exists fs (files_at trash name) ≡ false
        → exists fs (info_at trash name) ≡ false
        → (r.1 ≡ true
            → (d : ℕ) × (r.0 (info_at trash name) ≡ some (new_file d (info_text stored when))))
        → Outcome env when fs p (move no p (entry_of no n trash stored when name) r)
    written-Outcome name (mid, false) k free unwritten w = k
    written-Outcome name (mid, true) k free unwritten w =
        move-Outcome no env when fs mid p trash stored name n tree k free unwritten at place
          (w refl)

    named-Outcome :
        (mid : Fs) (o : Option Bytes)
        → Keeps fs mid
        → ((name : Bytes) → o ≡ some name → is_taken mid trash name ≡ false)
        → Outcome env when fs p (put_as no when p n trash stored mid o)
    named-Outcome mid none k taken = k
    named-Outcome mid (some name) k taken =
        let (free, unwritten) = is_taken-free mid trash name (taken name refl) in
        written-Outcome name (write_trash_info no (info_at trash name) stored when mid)
          (unfold write_trash_info in
            Keeps-trans fs mid _ k
              (create_new-Keeps no (info_at trash name) (info_text stored when) mid))
          (Keeps-free fs mid (files_at trash name) k free)
          (Keeps-free fs mid (info_at trash name) k unwritten)
          (unfold write_trash_info in
            create_new-written (info_at trash name) (info_text stored when) mid)

    made-Outcome :
        (r : Fs × Bool)
        → Keeps fs (r.0)
        → Outcome env when fs p (put_made no when p n trash stored r)
    made-Outcome (mid, false) k = k
    made-Outcome (mid, true) k =
        named-Outcome mid (unique_name mid trash (base_name p)) k
          (unique_name-free mid trash (base_name p))

  placed-Outcome :
      (n : Node)
      → fs p ≡ some n
      → (o : Option (FilePath × Bytes)) → trash_dir_for_path env fs p ≡ o
      → Outcome env when fs p (put_placed no when p n fs o)
  placed-Outcome n at none place = λ q m h. h
  placed-Outcome n at (some (trash, stored)) place =
      made-Outcome n at trash stored place (ensure_trash_dirs no trash fs)
        (ensure_trash_dirs-Keeps trash)

  found-Outcome :
      (o : Option Node) → fs p ≡ o → Outcome env when fs p (put_found no env when p fs o)
  found-Outcome none at = λ q m h. h
  found-Outcome (some n) at = placed-Outcome n at (trash_dir_for_path env fs p) refl

  pub put-Outcome : Outcome env when fs p (put no env when p fs)
  unfolding put
  put-Outcome = found-Outcome (fs p) refl

abbrev OutcomeOf : Environment → Bytes → Fs → FilePath → Fs → Option Entry → Type 0
OutcomeOf env when fs p after o = Outcome env when fs p (after, o)

-- On a tree, where Put returns an error, at whatever step, every node that there was is still where it was.
pub put-Keeps :
    (no : Refusals) (env : Environment) (when : Bytes) (fs : Fs) (p : FilePath)
    → IsTree fs
    → (put no env when p fs).1 ≡ none
    → Keeps fs ((put no env when p fs).0)
put-Keeps refused env when fs p tree h =
    subst (OutcomeOf env when fs p ((put refused env when p fs).0)) h
      (put-Outcome refused env when fs p tree)

-- On a tree, where Put returns an entry, the item stands in files with all that was below it, nothing else
-- that was there is changed, the path is free, and neither of the places that the trash uses was in use; the
-- entry tells the trash directory and the stored path, the size and the kind of the item, and the info file
-- holds the stored path and the time, unless it stood inside the item.
pub put-Moved :
    (no : Refusals) (env : Environment) (when : Bytes) (fs : Fs) (p : FilePath) (e : Entry)
    → IsTree fs
    → (put no env when p fs).1 ≡ some e
    → Moved fs p e ((put no env when p fs).0) × Recorded env when fs p e ((put no env when p fs).0)
put-Moved refused env when fs p e tree h =
    subst (OutcomeOf env when fs p ((put refused env when p fs).0)) h
      (put-Outcome refused env when fs p tree)
