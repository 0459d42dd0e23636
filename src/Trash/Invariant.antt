-- ===== src/Trash/Invariant.antt =====
-- trash/trash.go: Put leaves a tree, whatever its outcome.
use dankgo.Prelude.{
  ◌≡◌, ◌<◌, refl, sym, ap, ◌∙◌, Bool, true, false, not, ◌||◌, Option, none, some, [], ◌∷◌, ◌++◌,
  arith, Bool-cases, inl, inr, length, subst,
}
use dankgo.Prelude.Text.{Bytes}
use dankgo.Trash.Tree.{
  FilePath, Node, Fs, Refusals, same, same_iff, same_refl, below, exists, is_some, is_dir_at, moved,
  mkdir_all, add_dir, create_new, os_rename,
}
use dankgo.Trash.Paths.{base_name}
use dankgo.Trash.Place.{Environment, files_name, info_name, trash_dir_for_path}
use dankgo.Trash.Info.{info_text}
use dankgo.Trash.Put.{
  Entry, put, files_at, info_at, unique_name, ensure_trash_dirs, write_trash_info, entry_of, move,
  finish, put_as, put_made, put_placed, put_found, then_info, trash_info_ext,
}
use dankgo.Trash.Keeps.{mkdir_all-Keeps, create_new-Keeps}
use dankgo.Trash.Safety.{IsTree, exists_dir}
use dankgo.Trash.Whole.{set-IsTree, remove-IsTree, moved-IsTree}

-- A tree, in which the path is a directory where the flag says so.
abbrev IsMade : FilePath → Fs × Bool → Type 0
IsMade p r = IsTree (r.0) × (r.1 ≡ true → is_dir_at (r.0 p) ≡ true)

module _ (no : Refusals) where
  add_dir-longer :
      (ok : Bool) (p parent q : FilePath) (fs : Fs)
      → same p q ≡ false
      → (add_dir no ok p parent fs).0 q ≡ fs q
  add_dir-longer false p parent q fs h = refl
  add_dir-longer true p parent q fs h = elim (Bool-cases (no.mkdir p)) [
    | inl e ↦ rw e refl
    | inr e ↦ rw (e, h) refl
  ]

  -- Only the path and those above it are made.
  mkdir_all-longer :
      (p q : FilePath) (fs : Fs) → length p < length q → (mkdir_all no p fs).0 q ≡ fs q
  unfolding mkdir_all
  mkdir_all-longer [] q fs h = refl
  mkdir_all-longer (c ∷ cs) q fs h = elim (Bool-cases (is_some (fs (c ∷ cs)))) [
    | inl e ↦ rw e refl
    | inr e ↦ rw e (
        add_dir-longer _ (c ∷ cs) cs q ((mkdir_all no cs fs).0) differs
        ∙ mkdir_all-longer cs q fs (omega arith))
  ]
    where
      differs : same (c ∷ cs) q ≡ false
      differs = elim (Bool-cases (same (c ∷ cs) q)) [
        | inl s ↦
            let lengths : length (c ∷ cs) ≡ length q = ap length ((same_iff (c ∷ cs) q).0 s) in
            absurd (omega arith)
        | inr s ↦ s
      ]

  add_dir-IsMade :
      (ok : Bool) (c : Bytes) (cs : FilePath) (fs : Fs)
      → IsMade cs (fs, ok)
      → exists fs (c ∷ cs) ≡ false
      → IsMade (c ∷ cs) (add_dir no ok (c ∷ cs) cs fs)
  add_dir-IsMade false c cs fs (tree, dir) free = (tree, λ h. absurd (cc))
  add_dir-IsMade true c cs fs (tree, dir) free = elim (Bool-cases (no.mkdir (c ∷ cs))) [
    | inl e ↦ rw e (tree, λ h. absurd (cc))
    | inr e ↦ rw e (set-IsTree fs c cs _ tree (dir refl) free, λ h. rw (same_refl (c ∷ cs)) refl)
  ]

  mkdir_all-IsMade : (p : FilePath) (fs : Fs) → IsTree fs → IsMade p (mkdir_all no p fs)
  unfolding mkdir_all
  mkdir_all-IsMade [] fs tree = (tree, λ h. h)
  mkdir_all-IsMade (c ∷ cs) fs tree = elim (Bool-cases (is_some (fs (c ∷ cs)))) [
    | inl e ↦ rw e (tree, λ h. h)
    | inr e ↦
        let free : exists ((mkdir_all no cs fs).0) (c ∷ cs) ≡ false =
          unfold exists in (ap is_some (mkdir_all-longer cs (c ∷ cs) fs (omega arith)) ∙ e) in
        rw e (
          add_dir-IsMade ((mkdir_all no cs fs).1) c cs ((mkdir_all no cs fs).0)
            (mkdir_all-IsMade cs fs tree) free)
  ]

  abbrev AreMade : FilePath → Fs × Bool → Type 0
  AreMade trash r =
      IsTree (r.0)
      × (r.1 ≡ true
          → (is_dir_at (r.0 (files_name ∷ trash)) ≡ true)
            × (is_dir_at (r.0 (info_name ∷ trash)) ≡ true))

  then_info-AreMade :
      (trash : FilePath) (r : Fs × Bool)
      → IsMade (files_name ∷ trash) r
      → AreMade trash (then_info no trash r)
  then_info-AreMade trash (fs, false) (tree, dir) = (tree, λ h. absurd (cc))
  then_info-AreMade trash (fs, true) (tree, dir) =
      let made = mkdir_all-IsMade (info_name ∷ trash) fs tree in
      let (n, at) = exists_dir (fs (files_name ∷ trash)) (dir refl) in
      let kept = mkdir_all-Keeps no (info_name ∷ trash) fs (files_name ∷ trash) n at in
      (made.0, λ h. (ap is_dir_at kept ∙ (ap is_dir_at (sym at) ∙ dir refl), made.1 h))

  ensure_trash_dirs-AreMade :
      (trash : FilePath) (fs : Fs) → IsTree fs → AreMade trash (ensure_trash_dirs no trash fs)
  unfolding ensure_trash_dirs
  ensure_trash_dirs-AreMade trash fs tree =
      then_info-AreMade trash (mkdir_all no (files_name ∷ trash) fs)
        (mkdir_all-IsMade (files_name ∷ trash) fs tree)

  create_new-IsTree :
      (c : Bytes) (cs : FilePath) (text : Bytes) (fs : Fs)
      → IsTree fs
      → is_dir_at (fs cs) ≡ true
      → IsTree ((create_new no (c ∷ cs) text fs).0)
        × ((create_new no (c ∷ cs) text fs).1 ≡ true
            → is_dir_at ((create_new no (c ∷ cs) text fs).0 (c ∷ cs)) ≡ false)
  unfolding create_new
  create_new-IsTree c cs text fs tree parent =
      elim (Bool-cases (exists fs (c ∷ cs) || no.create (c ∷ cs))) [
        | inl e ↦ rw e (tree, λ h. absurd (cc))
        | inr e ↦
            let free : exists fs (c ∷ cs) ≡ false = ground arith in
            elim (Bool-cases (no.write (c ∷ cs))) [
              | inl w ↦ rw (e, w) (set-IsTree fs c cs _ tree parent free, λ h. absurd (cc))
              | inr w ↦
                  rw (e, w)
                    (set-IsTree fs c cs _ tree parent free, λ h. rw (same_refl (c ∷ cs)) refl)
            ]
      ]

  finish-IsTree :
      (p trash : FilePath) (e : Entry) (fs : Fs)
      → IsTree fs
      → e.files_path ≡ files_at trash e.name
      → is_dir_at (fs (files_name ∷ trash)) ≡ true
      → is_dir_at (fs e.info_path) ≡ false
      → IsTree ((finish no e fs (os_rename no p e.files_path fs)).0)
  unfolding os_rename
  finish-IsTree p trash e fs tree files dir file =
      elim (Bool-cases
        (not (exists fs p) || (is_some (below p e.files_path) || no.rename p e.files_path))) [
          | inl bad ↦ rw bad (remove-IsTree fs e.info_path tree file)
          | inr good ↦
              let beside : below p e.files_path ≡ none =
                is_none (below p e.files_path) (ground arith) in
              rw good (
                subst (λ t. IsTree (moved p t fs)) (sym files)
                  (moved-IsTree fs p e.name (files_name ∷ trash) tree dir
                    (ap (below p) (sym files) ∙ beside)))
        ]
    where
      is_none : (o : Option FilePath) → is_some o ≡ false → o ≡ none
      is_none none h = refl
      is_none (some w) h = absurd (cc)

  module _ (env : Environment) (when : Bytes) (p : FilePath) (n : Node) (trash : FilePath)
      (stored : Bytes) where
    move-IsTree :
        (name : Bytes) (r : Fs × Bool)
        → IsTree (r.0)
        → is_dir_at (r.0 (files_name ∷ trash)) ≡ true
        → (r.1 ≡ true → is_dir_at (r.0 (info_at trash name)) ≡ false)
        → IsTree ((move no p (entry_of no n trash stored when name) r).0)
    move-IsTree name (fs, false) tree dir file = tree
    move-IsTree name (fs, true) tree dir file =
        finish-IsTree p trash (entry_of no n trash stored when name) fs tree refl dir (file refl)

    put_as-IsTree :
        (fs : Fs) (o : Option Bytes)
        → IsTree fs
        → is_dir_at (fs (files_name ∷ trash)) ≡ true
        → is_dir_at (fs (info_name ∷ trash)) ≡ true
        → IsTree ((put_as no when p n trash stored fs o).0)
    unfolding write_trash_info
    put_as-IsTree fs none tree files info = tree
    put_as-IsTree fs (some name) tree files info =
        let text = info_text stored when in
        let (after, file) =
          create_new-IsTree (name ++ trash_info_ext) (info_name ∷ trash) text fs tree info in
        let (d, at) = exists_dir (fs (files_name ∷ trash)) files in
        let kept = create_new-Keeps no (info_at trash name) text fs (files_name ∷ trash) d at in
        move-IsTree name (write_trash_info no (info_at trash name) stored when fs) after
          (ap is_dir_at kept ∙ (ap is_dir_at (sym at) ∙ files)) file

    put_made-IsTree :
        (r : Fs × Bool) → AreMade trash r → IsTree ((put_made no when p n trash stored r).0)
    put_made-IsTree (fs, false) (tree, dirs) = tree
    put_made-IsTree (fs, true) (tree, dirs) =
        let (files, info) = dirs refl in
        put_as-IsTree fs (unique_name fs trash (base_name p)) tree files info

  put_placed-IsTree :
      (env : Environment) (when : Bytes) (p : FilePath) (n : Node) (fs : Fs)
      (o : Option (FilePath × Bytes))
      → IsTree fs
      → IsTree ((put_placed no when p n fs o).0)
  put_placed-IsTree env when p n fs none tree = tree
  put_placed-IsTree env when p n fs (some (trash, stored)) tree =
      put_made-IsTree env when p n trash stored (ensure_trash_dirs no trash fs)
        (ensure_trash_dirs-AreMade trash fs tree)

  put_found-IsTree :
      (env : Environment) (when : Bytes) (p : FilePath) (fs : Fs) (o : Option Node)
      → IsTree fs
      → IsTree ((put_found no env when p fs o).0)
  put_found-IsTree env when p fs none tree = tree
  put_found-IsTree env when p fs (some n) tree =
      put_placed-IsTree env when p n fs (trash_dir_for_path env fs p) tree

  -- From a tree, Put leads to a tree, whether it succeeds or fails.
  pub put-IsTree :
      (env : Environment) (when : Bytes) (p : FilePath) (fs : Fs)
      → IsTree fs
      → IsTree ((put no env when p fs).0)
  unfolding put
  put-IsTree env when p fs = put_found-IsTree env when p fs (fs p)
