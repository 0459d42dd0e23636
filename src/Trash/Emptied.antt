-- ===== src/Trash/Emptied.antt =====
-- trash/trash.go: what Empty removes, and what it leaves alone.
mod Samples
use dankgo.Prelude.{
  ℕ, ◌≡◌, ◌⊎◌, refl, sym, ap, ◌∙◌, Bool, true, false, not, ◌&&◌, ◌||◌, Option, none, some, List, [],
  ◌∷◌, ◌++◌, arith, if◌then◌else◌, append_assoc, All, Bool-cases, Option-cases, inl, inr, subst,
}
use mathlib.Core.Option.{none-ne-some, some-injective}
use dankgo.Prelude.Text.{Bytes, codes, eqb, eqb_iff}
use dankgo.Prelude.Members.{contains}
use dankgo.Trash.Tree.{FilePath, Node, Fs, same, same_iff, below}
use dankgo.Trash.Place.{files_name, info_name}
use dankgo.Trash.Safety.{below-append}
use dankgo.Trash.Stored.{below_sound}
use dankgo.Trash.Empty.{
  ReadDir, Removal, removed_at, remove_all, Emptied, remove_each, remove_listed, without_sizes,
  empty_one, empty,
}
use dankgo.Trash.Cleared.{
  below-higher, Cleared, remove_listed-Cleared, without_sizes-none, without_sizes-beside,
}

module _ (rm : Removal) (read : ReadDir) (works : (p : FilePath) → rm.fails p ≡ false) where
  -- What one trash directory, or all of them, have lost.
  record Gone (trash : FilePath) (after : Emptied) : Type 0 where
    gone :
        (sub : Bytes) (names : List Bytes) (name : Bytes) (way : FilePath)
        → (sub ≡ files_name) ⊎ (sub ≡ info_name)
        → read (sub ∷ trash) ≡ some names
        → contains names name ≡ true
        → after.0 (way ++ name ∷ sub ∷ trash) ≡ none

  module _ (trash : FilePath) (s : Emptied) where
    abbrev files_read : Option (List Bytes)
    files_read = read (files_name ∷ trash)

    abbrev info_read : Option (List Bytes)
    info_read = read (info_name ∷ trash)

    abbrev no_files : Emptied
    no_files = remove_listed rm (files_name ∷ trash) files_read s

    abbrev no_info : Emptied
    no_info = remove_listed rm (info_name ∷ trash) info_read no_files

    files-Cleared : Cleared rm read works (files_name ∷ trash) files_read s no_files
    files-Cleared = remove_listed-Cleared rm read works (files_name ∷ trash) files_read s

    info-Cleared : Cleared rm read works (info_name ∷ trash) info_read no_files no_info
    info-Cleared = remove_listed-Cleared rm read works (info_name ∷ trash) info_read no_files

    empty_one-none : (q : FilePath) → s.0 q ≡ none → (empty_one rm read trash s).0 q ≡ none
    unfolding empty_one
    empty_one-none q h =
        without_sizes-none rm read works (codes "directorysizes" ∷ trash) q no_info
          (info-Cleared.absent q (files-Cleared.absent q h))

    empty_one-beside :
        (q : FilePath) → below trash q ≡ none → (empty_one rm read trash s).0 q ≡ s.0 q
    unfolding empty_one
    empty_one-beside q h =
        without_sizes-beside rm read works (codes "directorysizes") trash q no_info h
        ∙ (info-Cleared.beside q (below-higher info_name trash q h)
            ∙ files-Cleared.beside q (below-higher files_name trash q h))

    empty_one-works : s.1 ≡ true → (empty_one rm read trash s).1 ≡ true
    unfolding empty_one
    empty_one-works h = kept no_info (info-Cleared.works_on (files-Cleared.works_on h))
      where
        kept :
            (r : Emptied)
            → r.1 ≡ true
            → (without_sizes rm (codes "directorysizes" ∷ trash) r).1 ≡ true
        kept (fs, ok) h = h

    empty_one-Gone : Gone trash (empty_one rm read trash s)
    unfolding empty_one
    empty_one-Gone = record { gone = gone_from }
      where
        sizes : FilePath
        sizes = codes "directorysizes" ∷ trash

        from_files :
            (names : List Bytes) (name : Bytes) (way : FilePath)
            → files_read ≡ some names
            → contains names name ≡ true
            → (without_sizes rm sizes no_info).0 (way ++ name ∷ files_name ∷ trash) ≡ none
        from_files names name way e h =
            let q = way ++ name ∷ files_name ∷ trash in
            without_sizes-none rm read works sizes q no_info
              (info-Cleared.absent q (files-Cleared.gone names name way e h))

        from_info :
            (names : List Bytes) (name : Bytes) (way : FilePath)
            → info_read ≡ some names
            → contains names name ≡ true
            → (without_sizes rm sizes no_info).0 (way ++ name ∷ info_name ∷ trash) ≡ none
        from_info names name way e h =
            without_sizes-none rm read works sizes (way ++ name ∷ info_name ∷ trash) no_info
              (info-Cleared.gone names name way e h)

        gone_from :
            (sub : Bytes) (names : List Bytes) (name : Bytes) (way : FilePath)
            → (sub ≡ files_name) ⊎ (sub ≡ info_name)
            → read (sub ∷ trash) ≡ some names
            → contains names name ≡ true
            → (without_sizes rm sizes no_info).0 (way ++ name ∷ sub ∷ trash) ≡ none
        gone_from sub names name way (inl f) e h =
            subst (λ x. (without_sizes rm sizes no_info).0 (way ++ name ∷ x ∷ trash) ≡ none) (sym f)
              (from_files names name way (ap (λ x. read (x ∷ trash)) (sym f) ∙ e) h)
        gone_from sub names name way (inr f) e h =
            subst (λ x. (without_sizes rm sizes no_info).0 (way ++ name ∷ x ∷ trash) ≡ none) (sym f)
              (from_info names name way (ap (λ x. read (x ∷ trash)) (sym f) ∙ e) h)

  empty-none :
      (dirs : List FilePath) (q : FilePath) (s : Emptied)
      → s.0 q ≡ none
      → (empty rm read dirs s).0 q ≡ none
  unfolding empty
  empty-none [] q s h = h
  empty-none (trash ∷ dirs) q s h =
      empty-none dirs q (empty_one rm read trash s) (empty_one-none trash s q h)

  empty-beside :
      (dirs : List FilePath) (q : FilePath) (s : Emptied)
      → All (λ (t : FilePath). below t q ≡ none) dirs
      → (empty rm read dirs s).0 q ≡ s.0 q
  unfolding empty
  empty-beside [] q s a = refl
  empty-beside (trash ∷ dirs) q s (h, a) =
      empty-beside dirs q (empty_one rm read trash s) a ∙ empty_one-beside trash s q h

  empty-works : (dirs : List FilePath) (s : Emptied) → s.1 ≡ true → (empty rm read dirs s).1 ≡ true
  unfolding empty
  empty-works [] s h = h
  empty-works (trash ∷ dirs) s h =
      empty-works dirs (empty_one rm read trash s) (empty_one-works trash s h)

  empty-gone :
      (before rest : List FilePath) (trash : FilePath) (s : Emptied) (sub : Bytes)
      (names : List Bytes) (name : Bytes) (way : FilePath)
      → (sub ≡ files_name) ⊎ (sub ≡ info_name)
      → read (sub ∷ trash) ≡ some names
      → contains names name ≡ true
      → (empty rm read (before ++ trash ∷ rest) s).0 (way ++ name ∷ sub ∷ trash) ≡ none
  unfolding empty
  empty-gone [] rest trash s sub names name way i e h =
      let one = empty_one-Gone trash s in
      empty-none rest (way ++ name ∷ sub ∷ trash) (empty_one rm read trash s)
        (one.gone sub names name way i e h)
  empty-gone (t ∷ before) rest trash s sub names name way i e h =
      empty-gone before rest trash (empty_one rm read t s) sub names name way i e h

-- Where os.RemoveAll never fails, Empty returns no error, removes whatever os.ReadDir has listed under files and
-- under info of each trash directory, with all that is below it, and changes nothing outside the trash
-- directories.
pub empty-emptied :
    (rm : Removal) (read : ReadDir) (fs : Fs) (before rest : List FilePath) (trash : FilePath)
    → ((p : FilePath) → rm.fails p ≡ false)
    → let s = empty rm read (before ++ trash ∷ rest) (fs, true) in
      (s.1 ≡ true)
      × (((q : FilePath)
            → All (λ (t : FilePath). below t q ≡ none) (before ++ trash ∷ rest)
            → s.0 q ≡ fs q)
          × ((sub : Bytes) (names : List Bytes) (name : Bytes) (way : FilePath)
              → (sub ≡ files_name) ⊎ (sub ≡ info_name)
              → read (sub ∷ trash) ≡ some names
              → contains names name ≡ true
              → s.0 (way ++ name ∷ sub ∷ trash) ≡ none))
empty-emptied rm read fs before rest trash works =
    let dirs = before ++ trash ∷ rest in
    (
      empty-works rm read works dirs (fs, true) refl,
      (
        λ q a. empty-beside rm read works dirs q (fs, true) a,
        empty-gone rm read works before rest trash (fs, true),
      ),
    )
