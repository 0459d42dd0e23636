-- ===== src/Files/Mutate.antt =====
-- files/mutate.go and files/rename_linux.go: makeDir and rename, over the file system of Trash/Tree.antt. What
-- unix.Renameat2 answers, and what os.Mkdir refuses, are arguments; a failure of the system is an answer
-- without a code.
use dankgo.Prelude.{
  ◌≡◌, refl, sym, ap, ◌∙◌, Bool, false, not, ◌||◌, Option, none, some, [], ◌∷◌, if◌then◌else◌, any,
  ◌==◌, Bool-cases, inl, inr,
}
use mathlib.Core.Option.{none-ne-some, some-injective}
use dankgo.Prelude.Text.{Bytes, eqb}
use dankgo.Trash.Tree.{
  FilePath, Node, Fs, Refusals, exists, below, is_some, os_rename, moved, set, new_dir, device_at,
  is_dir_at,
}
use dankgo.Trash.Paths.{is_nil, is_abs, dots, dot, dir, resolve}
use dankgo.Trash.Safety.{IsTree, below-free}
use dankgo.Files.Errors.{Code}

pub data RenameAnswer : Type 0 where
  renamed : Fs → RenameAnswer
  unsupported : RenameAnswer
  failed : RenameAnswer

pub data Outcome : Type 0 where
  done : FilePath → Outcome
  coded : Code → Outcome
  failing : Outcome

unfoldable pub rename_if_absent : Refusals → FilePath → FilePath → Fs → Option Fs
unfolding exists os_rename
rename_if_absent refused from to fs = if exists fs to then none else os_rename refused from to fs

abbrev pub or_if_absent : Refusals → FilePath → FilePath → Fs → RenameAnswer → Option Fs
or_if_absent refused from to fs (renamed after) = some after
or_if_absent refused from to fs unsupported = rename_if_absent refused from to fs
or_if_absent refused from to fs failed = none

-- unix.Renameat2 with RENAME_NOREPLACE
abbrev pub NoReplace : Type 0
NoReplace = FilePath → FilePath → Fs → RenameAnswer

unfoldable pub rename_no_replace : Refusals → NoReplace → FilePath → FilePath → Fs → Option Fs
unfolding rename_if_absent
rename_no_replace refused ask from to fs = or_if_absent refused from to fs (ask from to fs)

unfoldable pub is_invalid_name : Bytes → Bool
unfolding eqb
is_invalid_name name = is_nil name || (eqb name dot || (eqb name dots || any (λ c. c == 47) name))

abbrev pub after_rename : FilePath → Fs → Option Fs → Fs × Outcome
after_rename to fs none = (fs, failing)
after_rename to fs (some after) = (after, done to)

-- Service.rename
unfoldable pub rename : Refusals → NoReplace → Bytes → Bytes → Fs → Fs × Outcome
unfolding rename_no_replace is_invalid_name resolve
rename refused ask path name fs =
    if not (is_abs path) || is_invalid_name name
    then (fs, coded Code.invalid)
    else (let from = resolve [] path in
        after_rename (name ∷ dir from) fs (rename_no_replace refused ask from (name ∷ dir from) fs))

abbrev pub made_at : Refusals → FilePath → Fs → Fs × Outcome
made_at refused [] fs = (fs, failing)
made_at refused (c ∷ cs) fs =
    if exists fs (c ∷ cs) || (not (is_dir_at (fs cs)) || refused.mkdir (c ∷ cs))
    then (fs, failing)
    else (set (c ∷ cs) (some (new_dir (device_at (fs cs)))) fs, done (c ∷ cs))

-- Service.makeDir up to the Stat of the new directory.
unfoldable pub make_dir : Refusals → Bytes → Fs → Fs × Outcome
unfolding resolve exists
make_dir refused path fs =
    if is_abs path then made_at refused (resolve [] path) fs else (fs, coded Code.invalid)

-- Where renameIfAbsent renames, the tree under the path has moved, and what is not below the path is kept.
rename_if_absent-moved :
    (refused : Refusals) (from to : FilePath) (fs after : Fs)
    → IsTree fs
    → rename_if_absent refused from to fs ≡ some after
    → (q : FilePath) (n : Node) → fs q ≡ some n
    → below from q ≡ none
    → after q ≡ some n
unfolding rename_if_absent
rename_if_absent-moved refused from to fs after tree h q n at away =
    elim (Bool-cases (exists fs to)) [
      | inl e ↦ absurd (none-ne-some _ (rw e at h))
      | inr e ↦ renamed_at e (rw e at h)
    ]
  where
    renamed_at : exists fs to ≡ false → os_rename refused from to fs ≡ some after → after q ≡ some n
    renamed_at free g =
        elim (Bool-cases
          (not (exists fs from) || (is_some (below from to) || refused.rename from to))) [
            | inl bad ↦ absurd (none-ne-some _ (sym (unfold os_rename in (rw bad refl)) ∙ g))
            | inr good ↦
                let it : some (moved from to fs) ≡ some after =
                  sym (unfold os_rename in (rw good refl)) ∙ g in
                ap (λ (x : Fs). x q) (sym (some-injective _ _ it))
                ∙ (unfold moved in (rw (below-free fs to q n tree free at, away) at))
          ]
