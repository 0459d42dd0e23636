-- ===== src/Trash/Safety.antt =====
-- trash/trash.go: what Put does to the files, whether it succeeds or fails.
use dankgo.Prelude.{
  ℕ, ◌≡◌, ◌<◌, refl, sym, ap, ◌∙◌, true, false, not, ◌||◌, Option, none, some, [], ◌∷◌, ◌++◌, arith,
  Bool-cases, Option-cases, inl, inr, length, length-append,
}
use mathlib.Core.Option.{some-injective}
use dankgo.Prelude.Text.{Bytes, eqb}
use dankgo.Trash.Tree.{
  FilePath, Node, Fs, Refusals, same, same_iff, same_refl, below, inside, exists, is_some, moved,
  os_rename, remove, is_dir_at, new_file,
}
use dankgo.Trash.Place.{Environment, info_name, trash_dir_for_path}
use dankgo.Trash.Put.{Entry, files_at, info_at, finish, entry_of, trash_info_ext}
use dankgo.Trash.Info.{info_text}
use dankgo.Trash.Keeps.{Keeps, Keeps-set}

-- What stands below a path is there only if the path is a directory.
abbrev pub IsTree : Fs → Type 0
IsTree fs = (c : Bytes) (cs : FilePath) (n : Node) → fs (c ∷ cs) ≡ some n → is_dir_at (fs cs) ≡ true

pub exists_dir : (o : Option Node) → is_dir_at o ≡ true → (n : Node) × (o ≡ some n)
exists_dir none h = absurd (cc)
exists_dir (some n) h = (n, refl)

-- Nothing stands below a path that is free.
pub below-free :
    (fs : Fs) (top q : FilePath) (n : Node)
    → IsTree fs
    → exists fs top ≡ false
    → fs q ≡ some n
    → below top q ≡ none
unfolding below exists
below-free fs top q n tree free h = go q n h
  where
    not_here : (q : FilePath) (n : Node) → fs q ≡ some n → same top q ≡ false
    not_here q n h = elim (Bool-cases (same top q)) [
      | inl e ↦
          let there : is_some (fs top) ≡ true =
            ap (λ x. is_some (fs x)) ((same_iff top q).0 e) ∙ ap is_some h in
          absurd (cc)
      | inr e ↦ e
    ]

    go : (q : FilePath) (n : Node) → fs q ≡ some n → below top q ≡ none
    go [] n h = rw (not_here [] n h) refl
    go (c ∷ cs) n h =
        let (m, e) = exists_dir (fs cs) (tree c cs n h) in
        rw (not_here (c ∷ cs) n h) (ap (inside c) (go cs m e))

same_longer : (top way : FilePath) (c : Bytes) → same top (c ∷ way ++ top) ≡ false
same_longer top way c = elim (Bool-cases (same top (c ∷ way ++ top))) [
  | inl e ↦
      let lengths : length top ≡ length (c ∷ way ++ top) =
        ap length ((same_iff top (c ∷ way ++ top)).0 e) in
      absurd (omega (arith, length-append way top))
  | inr e ↦ e
]

-- The way down is found again.
pub below-append : (top way : FilePath) → below top (way ++ top) ≡ some way
unfolding below
below-append [] [] = unfold same in refl
below-append (t ∷ ts) [] = rw (same_refl (t ∷ ts)) refl
below-append top (c ∷ way) = rw (same_longer top way c) (ap (inside c) (below-append top way))

-- What was at the path or below it stands in files, everything else that was there is there, the path is
-- free, and the places that the trash uses were free.
pub record Moved (fs : Fs) (p : FilePath) (e : Entry) (after : Fs) : Type 0 where
  pub there :
      (way : FilePath) (n : Node) → fs (way ++ p) ≡ some n → after (way ++ e.files_path) ≡ some n
  pub others : (q : FilePath) (n : Node) → fs q ≡ some n → below p q ≡ none → after q ≡ some n
  pub gone : exists after p ≡ false
  pub fresh : exists fs e.files_path ≡ false
  pub unwritten : exists fs e.info_path ≡ false

-- The entry tells where the item went, and its info file how to bring it back.
pub record Recorded (env : Environment) (when : Bytes) (fs : Fs) (p : FilePath) (e : Entry)
    (after : Fs) : Type 0 where
  pub placed : trash_dir_for_path env fs p ≡ some (e.trash_dir, e.original_path)
  pub files : e.files_path ≡ files_at e.trash_dir e.name
  pub info : e.info_path ≡ info_at e.trash_dir e.name
  pub date : e.deletion_date ≡ when
  pub written :
      below p e.info_path ≡ none
      → (d : ℕ) × (after e.info_path
          ≡ some (new_file d (info_text e.original_path e.deletion_date)))
  pub sized : (n : Node) → fs p ≡ some n → (e.size ≡ n.size) × (e.is_dir ≡ n.is_dir)

abbrev pub Outcome : Environment → Bytes → Fs → FilePath → Fs × Option Entry → Type 0
Outcome env when fs p (after, none) = Keeps fs after
Outcome env when fs p (after, some e) = Moved fs p e after × Recorded env when fs p e after

-- The first file system lacks what the second one lacks.
pub Keeps-free :
    (fs after : Fs) (q : FilePath) → Keeps fs after → exists after q ≡ false → exists fs q ≡ false
unfolding exists
Keeps-free fs after q k free = elim (Option-cases (fs q)) [
  | inl e ↦ rw e refl
  | inr (n, e) ↦ let there : is_some (after q) ≡ true = ap is_some (k q n e) in absurd (cc)
]

moved-Moved :
    (fs mid : Fs) (p : FilePath) (n : Node) (e : Entry)
    → IsTree fs
    → Keeps fs mid
    → exists fs e.files_path ≡ false
    → exists fs e.info_path ≡ false
    → fs p ≡ some n
    → Moved fs p e (moved p e.files_path mid)
unfolding moved exists
moved-Moved fs mid p n e tree k free unwritten at = record {
  there = λ way m h. rw (below-append e.files_path way) (k (way ++ p) m h);
  others = λ q m h away. rw (below-free fs e.files_path q m tree free h, away) (k q m h);
  gone = rw (below-free fs e.files_path p n tree free at, below-append p []) refl;
  fresh = free;
  unwritten = unwritten;
}

pub below-short : (top q : FilePath) → length q < length top → below top q ≡ none
unfolding below
below-short [] [] h = absurd (omega arith)
below-short (t ∷ ts) [] h = unfold same in refl
below-short top (c ∷ cs) h = elim (Bool-cases (same top (c ∷ cs))) [
  | inl e ↦
      let lengths : length top ≡ length (c ∷ cs) = ap length ((same_iff top (c ∷ cs)).0 e) in
      absurd (omega arith)
  | inr e ↦ rw e (ap (inside c) (below-short top cs (omega arith)))
]

-- The info file does not stand under the item in files.
below-files-info :
    (trash : FilePath) (name : Bytes) → below (files_at trash name) (info_at trash name) ≡ none
unfolding below
below-files-info trash name = rw (other_dir (name ++ trash_info_ext)) (
    ap (inside (name ++ trash_info_ext))
      (below-short (files_at trash name) (info_name ∷ trash) (omega arith)))
  where
    other_dir : (c : Bytes) → same (files_at trash name) (c ∷ info_name ∷ trash) ≡ false
    other_dir c = unfold same eqb in ground arith

module _ (no : Refusals) where
  pub move-Outcome :
      (env : Environment) (when : Bytes) (fs mid : Fs) (p trash : FilePath) (stored name : Bytes)
      (n : Node)
      → IsTree fs
      → Keeps fs mid
      → exists fs (files_at trash name) ≡ false
      → exists fs (info_at trash name) ≡ false
      → fs p ≡ some n
      → trash_dir_for_path env fs p ≡ some (trash, stored)
      → (d : ℕ) × (mid (info_at trash name) ≡ some (new_file d (info_text stored when)))
      → Outcome env when fs p (
          finish no
            (entry_of no n trash stored when name)
            mid
            (os_rename no p (files_at trash name) mid))
  unfolding os_rename
  move-Outcome env when fs mid p trash stored name n tree k free unwritten at place written =
      let e = entry_of no n trash stored when name in
      elim (Bool-cases
        (not (exists mid p) || (is_some (below p e.files_path) || no.rename p e.files_path))) [
          | inl bad ↦ rw bad (unfold remove in Keeps-set fs mid e.info_path none k unwritten)
          | inr good ↦ rw good (
            moved-Moved fs mid p n e tree k free unwritten at,
            record {
              placed = place;
              files = refl;
              info = refl;
              date = refl;
              written = λ away.
                  (written.0, unfold moved in (rw (below-files-info trash name, away) (written.1)));
              sized = λ m h.
                  let same_node : n ≡ m = some-injective _ _ (sym at ∙ h) in
                  (ap (λ (x : Node). x.size) same_node, ap (λ (x : Node). x.is_dir) same_node);
            },
          )
        ]
