-- ===== src/Trash/RoundTrip.antt =====
-- trash/trash.go: Put and then Restore, and Put and then the listing.
use dankgo.Prelude.{
  ◌≡◌, refl, sym, ap, ◌∙◌, Bool, true, false, none, some, [], ◌∷◌, ◌++◌, arith, Bool-cases,
  Option-cases, inl, inr, subst,
}
use mathlib.Core.Option.{none-ne-some}
use dankgo.Prelude.Text.{Bytes, eqb}
use dankgo.Prelude.Split.{IsFree}
use dankgo.Trash.Tree.{
  FilePath, Node, Fs, Refusals, same, same_iff, same_refl, below, exists, is_some, is_dir_at,
  mkdir_all, os_rename, moved, remove,
}
use dankgo.Trash.Paths.{AreNames, base_name}
use dankgo.Trash.Place.{Environment, shared_name, find_top_dir}
use dankgo.Trash.Info.{info_text, read_path-info_text}
use dankgo.Trash.Put.{Entry, put}
use dankgo.Trash.Keeps.{Keeps}
use dankgo.Trash.Safety.{IsTree, Moved, Recorded, below-free, below-append, below-short, exists_dir}
use dankgo.Trash.Outcome.{put-Moved}
use dankgo.Trash.Stored.{Leads, below_sound, trash_dir_for_path-Leads}
use dankgo.Trash.Restore.{restore, restore_to, restore_stored, restore_read, read_file, text_of}

mkdir_all-there :
    (refused : Refusals) (p : FilePath) (fs : Fs) (n : Node)
    → fs p ≡ some n
    → n.is_dir ≡ true
    → mkdir_all refused p fs ≡ (fs, true)
unfolding mkdir_all
mkdir_all-there refused [] fs n h d = rw (h, d) refl
mkdir_all-there refused (c ∷ cs) fs n h d = rw (h, d) refl

module _ (refused : Refusals) (fs after : Fs) (c : Bytes) (cs : FilePath) (e : Entry)
    (tree : IsTree fs) (m : Moved fs (c ∷ cs) e after)
    (free_name : refused.rename e.files_path (c ∷ cs) ≡ false)
    (away : below (c ∷ cs) e.info_path ≡ none) (n : Node) (at : fs (c ∷ cs) ≡ some n) where
  abbrev restored : Fs
  restored = remove e.info_path (moved e.files_path (c ∷ cs) after)

  parent_there : (d : Node) × ((fs cs ≡ some d) × (d.is_dir ≡ true))
  parent_there =
      let (d, h) = exists_dir (fs cs) (tree c cs n at) in
      (d, (h, subst (λ x. is_dir_at x ≡ true) h (tree c cs n at)))

  os_rename-back :
      os_rename refused e.files_path (c ∷ cs) after ≡ some (moved e.files_path (c ∷ cs) after)
  unfolding os_rename
  os_rename-back =
      let there : exists after e.files_path ≡ true =
        unfold exists in ap is_some (m.there [] n at) in
      rw (there, below-free fs e.files_path (c ∷ cs) n tree m.fresh at, free_name) refl

  restore_to-moved : restore_to refused e.files_path e.info_path (c ∷ cs) after ≡ (restored, true)
  restore_to-moved =
      let (d, (h, is_dir)) = parent_there in
      let kept = m.others cs d h (below-short (c ∷ cs) cs (omega arith)) in
      rw (m.gone, mkdir_all-there refused cs after d kept is_dir, os_rename-back) refl

  -- The node that was at a path is there again.
  restored_below :
      (way : FilePath) (d : Node) → fs (way ++ c ∷ cs) ≡ some d → restored (way ++ c ∷ cs) ≡ some d
  restored_below way d h = elim (Bool-cases (same e.info_path (way ++ c ∷ cs))) [
    | inl s ↦
        let inside_it : below (c ∷ cs) e.info_path ≡ some way =
          ap (below (c ∷ cs)) ((same_iff e.info_path (way ++ c ∷ cs)).0 s)
          ∙ below-append (c ∷ cs) way in
        absurd (none-ne-some _ (sym away ∙ inside_it))
    | inr s ↦ unfold remove moved in (rw (s, below-append (c ∷ cs) way) (m.there way d h))
  ]

  restored_beside :
      (q : FilePath) (d : Node) → fs q ≡ some d → below (c ∷ cs) q ≡ none → restored q ≡ some d
  restored_beside q d h outside = elim (Bool-cases (same e.info_path q)) [
    | inl s ↦
        let there : exists fs e.info_path ≡ true =
          unfold exists in
          (ap (λ x. is_some (fs x)) ((same_iff e.info_path q).0 s) ∙ ap is_some h) in
        absurd (cc)
    | inr s ↦
        unfold remove moved in
        (rw (s, outside, below-free fs e.files_path q d tree m.fresh h) (m.others q d h outside))
  ]

  restored-Keeps : Keeps fs restored
  restored-Keeps q d h = elim (Option-cases (below (c ∷ cs) q)) [
    | inl outside ↦ restored_beside q d h outside
    | inr (way, inside_it) ↦
        let whole = below_sound (c ∷ cs) q way inside_it in
        subst (λ x. restored x ≡ some d) (sym whole) (restored_below way d (sym (ap fs whole) ∙ h))
  ]

  module _ (env : Environment) (when : Bytes) (recorded : Recorded env when fs (c ∷ cs) e after)
      (line : IsFree 10 when) (leads : Leads e.trash_dir (c ∷ cs) e.original_path) where
    read_file-info : read_file after e.info_path ≡ some (info_text e.original_path e.deletion_date)
    unfolding read_file
    read_file-info = ap text_of ((recorded.written away).1)

    restore_stored-moved :
        restore_stored refused e.trash_dir e.name e.original_path after ≡ (restored, true)
    restore_stored-moved =
        let (bytes, (nonempty, target)) = leads in
        rw (nonempty, target, sym recorded.files, sym recorded.info) restore_to-moved

    restore-restored : restore refused env e.name (some e.trash_dir) after ≡ (restored, true)
    unfolding restore
    restore-restored =
        let (bytes, rest) = leads in
        let stored =
          read_path-info_text e.original_path e.deletion_date bytes
            (subst (IsFree 10) (sym recorded.date) line) in
        ap (λ x. restore_read refused e.trash_dir e.name after (read_file after x))
          (sym recorded.info)
        ∙ (ap (restore_read refused e.trash_dir e.name after) read_file-info
            ∙ (ap (λ x. restore_stored refused e.trash_dir e.name x after) stored
                ∙ restore_stored-moved))

-- On a tree, an item whose path has proper names, put at a time of one line, is restored without an error:
-- every node that there was before is where it was, and the info file is gone. The top directory is not named
-- .Trash, the info file did not stand inside the item, and the system does not refuse the move back.
pub restore-put :
    (refused : Refusals) (env : Environment) (when : Bytes) (fs : Fs) (c : Bytes) (cs : FilePath)
    (e : Entry) (n : Node)
    → IsTree fs
    → AreNames (c ∷ cs)
    → IsFree 10 when
    → fs (c ∷ cs) ≡ some n
    → (put refused env when (c ∷ cs) fs).1 ≡ some e
    → ((top : FilePath)
        → find_top_dir fs (c ∷ cs) ≡ some top
        → eqb (base_name top) shared_name ≡ false)
    → below (c ∷ cs) e.info_path ≡ none
    → refused.rename e.files_path (c ∷ cs) ≡ false
    → let r =
        restore refused env e.name (some e.trash_dir) ((put refused env when (c ∷ cs) fs).0) in
      (r.1 ≡ true) × (Keeps fs (r.0) × (exists (r.0) e.info_path ≡ false))
restore-put refused env when fs c cs e n tree names line at success named away free_name =
    let (m, recorded) = put-Moved refused env when fs (c ∷ cs) e tree success in
    let after = (put refused env when (c ∷ cs) fs).0 in
    let leads =
      trash_dir_for_path-Leads env fs (c ∷ cs) e.trash_dir e.original_path names named
        recorded.placed in
    let end =
      restore-restored refused fs after c cs e tree m free_name away n at env when recorded line
        leads in
    subst (λ (r : Fs × Bool). (r.1 ≡ true) × (Keeps fs (r.0) × (exists (r.0) e.info_path ≡ false)))
      (sym end)
      (
        refl,
        (
          restored-Keeps refused fs after c cs e tree m free_name away n at,
          unfold exists remove in (rw (same_refl e.info_path) refl),
        ),
      )
