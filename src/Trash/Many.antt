-- ===== src/Trash/Many.antt =====
-- files/mutate.go: trashPaths, which puts one path after the other in the trash.
use dankgo.Prelude.{
  ◌≡◌, refl, sym, ◌∙◌, Option, none, some, List, [], ◌∷◌, ◌++◌, All, append_assoc, append-nil,
  subst,
}
use dankgo.Prelude.Text.{Bytes}
use dankgo.Trash.Tree.{FilePath, Node, Fs, Refusals, below}
use dankgo.Trash.Place.{Environment}
use dankgo.Trash.Put.{Entry, put}
use dankgo.Trash.Keeps.{Keeps}
use dankgo.Trash.Safety.{IsTree, Moved}
use dankgo.Trash.Outcome.{put-Keeps, put-Moved}
use dankgo.Trash.Invariant.{put-IsTree}

-- The paths of trashResult; the codes and texts of the failures are left out.
pub record TrashResult : Type 0 where
  pub trashed : List FilePath
  pub failed : List FilePath

abbrev put_result : FilePath → Option Entry → TrashResult → TrashResult
put_result p none r = record r { failed = r.failed ++ p ∷ [] }
put_result p (some e) r = record r { trashed = r.trashed ++ p ∷ [] }

-- The loop, at the formatted times of the calls.
unfoldable pub trash_each :
    Refusals → Environment → List (Bytes × FilePath) → Fs × TrashResult → Fs × TrashResult
unfolding put
trash_each refused env [] s = s
trash_each refused env ((when, p) ∷ ps) (fs, r) =
    let (after, e) = put refused env when p fs in
    trash_each refused env ps (after, put_result p e r)

unfoldable pub trash_paths :
    Refusals → Environment → List (Bytes × FilePath) → Fs → Fs × TrashResult
unfolding trash_each
trash_paths refused env ps fs = trash_each refused env ps (fs, record { trashed = []; failed = [] })

-- Each path stands once in one of the two lists, in order.
pub data Reported : List (Bytes × FilePath) → List FilePath → List FilePath → Type 0 where
  nothing : Reported [] [] []
  in_trash :
      (when : Bytes) (p : FilePath) (ps : List (Bytes × FilePath)) (a b : List FilePath)
      → Reported ps a b
      → Reported ((when, p) ∷ ps) (p ∷ a) b
  in_failed :
      (when : Bytes) (p : FilePath) (ps : List (Bytes × FilePath)) (a b : List FilePath)
      → Reported ps a b
      → Reported ((when, p) ∷ ps) a (p ∷ b)

-- What is below none of the paths is kept.
abbrev pub Beside : List FilePath → Fs → Fs → Type 0
Beside ts fs after =
    (q : FilePath) (n : Node)
    → fs q ≡ some n
    → All (λ (t : FilePath). below t q ≡ none) ts
    → after q ≡ some n

record Run (ps : List (Bytes × FilePath)) (fs : Fs) (r : TrashResult) (s : Fs × TrashResult)
    : Type 0 where
  a : List FilePath
  b : List FilePath
  trashed : (s.1).trashed ≡ r.trashed ++ a
  failed : (s.1).failed ≡ r.failed ++ b
  reported : Reported ps a b
  tree : IsTree (s.0)
  beside : Beside a fs (s.0)

module _ (no : Refusals) (env : Environment) where
  after_put :
      (when : Bytes) (p : FilePath) (ps : List (Bytes × FilePath)) (fs mid : Fs) (r : TrashResult)
      (o : Option Entry) (s : Fs × TrashResult)
      → (o ≡ none → Keeps fs mid)
      → ((e : Entry) → o ≡ some e → Moved fs p e mid)
      → Run ps mid (put_result p o r) s
      → Run ((when, p) ∷ ps) fs r s
  after_put when p ps fs mid r none s keeps moves run = record {
    a = run.a;
    b = p ∷ run.b;
    trashed = run.trashed;
    failed = run.failed ∙ append_assoc r.failed (p ∷ []) run.b;
    reported = in_failed when p ps run.a run.b run.reported;
    tree = run.tree;
    beside = λ q n h away. run.beside q n (keeps refl q n h) away;
  }
  after_put when p ps fs mid r (some e) s keeps moves run =
      let m = moves e refl in
      record {
        a = p ∷ run.a;
        b = run.b;
        trashed = run.trashed ∙ append_assoc r.trashed (p ∷ []) run.a;
        failed = run.failed;
        reported = in_trash when p ps run.a run.b run.reported;
        tree = run.tree;
        beside = λ q n h away. run.beside q n (m.others q n h (away.0)) (away.1);
      }

  trash_each-Run :
      (ps : List (Bytes × FilePath)) (fs : Fs) (r : TrashResult)
      → IsTree fs
      → Run ps fs r (trash_each no env ps (fs, r))
  unfolding trash_each
  trash_each-Run [] fs r tree = record {
    a = [];
    b = [];
    trashed = sym (append-nil r.trashed);
    failed = sym (append-nil r.failed);
    reported = nothing;
    tree = tree;
    beside = λ q n h away. h;
  }
  trash_each-Run ((when, p) ∷ ps) fs r tree =
      let mid = (put no env when p fs).0 in
      let o = (put no env when p fs).1 in
      after_put when p ps fs mid r o (trash_each no env ps (mid, put_result p o r))
        (put-Keeps no env when fs p tree) (λ e h. (put-Moved no env when fs p e tree h).0)
        (trash_each-Run ps mid (put_result p o r) (put-IsTree no env when p fs tree))

-- From a tree, trashPaths leads to a tree, reports each path once, in order, as trashed or as failed, and keeps
-- every node that stands below none of the paths that it reports as trashed.
pub trash_paths-Reported :
    (refused : Refusals) (env : Environment) (ps : List (Bytes × FilePath)) (fs : Fs)
    → IsTree fs
    → let s = trash_paths refused env ps fs in
      Reported ps ((s.1).trashed) ((s.1).failed) × (IsTree (s.0) × Beside ((s.1).trashed) fs (s.0))
unfolding trash_paths
trash_paths-Reported refused env ps fs tree =
    let run = trash_each-Run refused env ps fs (record { trashed = []; failed = [] }) tree in
    let s = trash_paths refused env ps fs in
    (
      subst (λ x. Reported ps x ((s.1).failed)) (sym run.trashed)
          (subst (Reported ps run.a) (sym run.failed) run.reported),
      (run.tree, subst (λ x. Beside x fs (s.0)) (sym run.trashed) run.beside),
    )
