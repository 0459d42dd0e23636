-- ===== src/Desktop/Written/Kept.antt =====
-- desktop/mimeapps.go: a default that is set is in the user's file, or the file is as it was.
use mathlib.Core.Bool.{true≢false}
use mathlib.Core.Option.{none-ne-some, some-injective}
use dankgo.Prelude.{
  not, Bool, true, false, Option, none, some, refl, sym, subst, ◌≡◌, ◌∙◌, ◌⊎◌, if◌then◌else◌,
  Bool-cases, inl, inr,
}
use dankgo.Prelude.Text.{Bytes, eqb, eqb_refl}
use dankgo.Prelude.Members.{GoMap, assign}
use dankgo.Desktop.Associations.{MimeAssociations, associations_from_data}
use dankgo.Desktop.Render.{Keys, render_mimeapps}
use dankgo.Desktop.Render.Fit.{AreFit}
use dankgo.Desktop.Render.RoundTrip.{associations_from_data-render_mimeapps}
use dankgo.Desktop.Written.{
  Calls, discarded, atomic_write_file, content, read_original, write_rendered, write_updated,
  write_user_mimeapps,
}

-- The file has a content with the property and there is no error, or it is as it was and there is an error.
abbrev pub Outcome : (Bytes → Type 0) → Bytes → GoMap Bytes → GoMap Bytes × Bool → Type 0
Outcome P path before (after, ok) =
    ((ok ≡ true) × (text : Bytes) × (after path ≡ some text) × P text)
    ⊎ ((ok ≡ false) × (after path ≡ before path))

-- Another name than that of the temporary file, or that name, where it was free and the file can be removed.
abbrev pub IsSpared : Calls → Bytes → GoMap Bytes → Bytes → Type 0
IsSpared calls tmp files q = (eqb tmp q ≡ false) ⊎ ((calls.remove ≡ true) × (files q ≡ none))

module _ (calls : Calls) (path tmp : Bytes) (P : Bytes → Type 0) (files : GoMap Bytes)
    (apart : eqb tmp path ≡ false) where
  pub record IsReplaced (result : GoMap Bytes × Bool) : Type 0 where
    pub outcome : Outcome P path files result
    pub others :
        (q : Bytes) → eqb path q ≡ false → IsSpared calls tmp files q → result.0 q ≡ files q

  choose :
      (b : Bool) (x y : GoMap Bytes × Bool)
      → IsReplaced x
      → IsReplaced y
      → IsReplaced (if b then x else y)
  choose true x y h k = h
  choose false x y h k = k

  gone : (r : Bytes) → IsSpared calls tmp files r → assign tmp none files r ≡ files r
  gone r (inl h) = rw h refl
  gone r (inr (h, e)) = elim (Bool-cases (eqb tmp r)) [ inl s ↦ rw (s, e) refl | inr s ↦ rw s refl ]

  discarded-spared :
      (content r : Bytes)
      → IsSpared calls tmp files r
      → discarded calls tmp content files r ≡ files r
  discarded-spared content r s = elim (Bool-cases calls.remove) [
    | inl h ↦ rw h (gone r s)
    | inr h ↦ rw h (kept h s)
  ]
    where
      kept :
          calls.remove ≡ false
          → IsSpared calls tmp files r
          → assign tmp (some content) files r ≡ files r
      kept h (inl a) = rw a refl
      kept h (inr (b, e)) = absurd (true≢false (sym b ∙ h))

  failed : IsReplaced (files, false)
  failed = record { outcome = inr (refl, refl); others = λ q h s. refl }

  discarded-IsReplaced : (content : Bytes) → IsReplaced (discarded calls tmp content files, false)
  discarded-IsReplaced content = record {
    outcome = inr (refl, discarded-spared content path (inl apart));
    others = λ q h s. discarded-spared content q s;
  }

  atomic_write_file-IsReplaced :
      (text : Bytes) → P text → IsReplaced (atomic_write_file calls path tmp text files)
  unfolding atomic_write_file
  atomic_write_file-IsReplaced text p = choose (not calls.mkdir) _ _ failed (
      choose (not calls.create) _ _ failed (
        choose (not calls.write) _ _ (discarded-IsReplaced calls.partial) (
          choose (not calls.chmod) _ _ (discarded-IsReplaced text) (
            choose (not calls.close) _ _ (discarded-IsReplaced text) (
              choose (not calls.rename) _ _ (discarded-IsReplaced text) (record {
                outcome = inl (refl, text, rw (eqb_refl path) refl, p);
                others = λ q h s. rw h (gone q s);
              }))))))

  write_rendered-IsReplaced :
      (o : Option Bytes)
      → ((text : Bytes) → o ≡ some text → P text)
      → IsReplaced (write_rendered calls path tmp files o)
  write_rendered-IsReplaced none h = failed
  write_rendered-IsReplaced (some text) h = atomic_write_file-IsReplaced text (h text refl)

-- The associations that are to be written.
abbrev pub wanted : (MimeAssociations → MimeAssociations) → Option Bytes → MimeAssociations
wanted update o = update (associations_from_data (content o))

read_original-content :
    (readable : Bool) (o : Option Bytes) (text : Bytes)
    → read_original readable o ≡ some text
    → text ≡ content o
read_original-content true file text e = sym (some-injective _ _ e)
read_original-content false file text e = absurd (none-ne-some _ e)

module _ (calls : Calls) (keys : MimeAssociations → Keys)
    (update : MimeAssociations → MimeAssociations) (path tmp : Bytes) (files : GoMap Bytes) where
  abbrev pub HoldsWanted : Bytes → Type 0
  HoldsWanted text = associations_from_data text ≡ wanted update (files path)

  module _ (apart : eqb tmp path ≡ false)
      (fit : AreFit (keys (wanted update (files path))) (wanted update (files path))) where
    write_updated-IsReplaced :
        (o : Option Bytes)
        → ((text : Bytes) → o ≡ some text → text ≡ content (files path))
        → IsReplaced calls path tmp HoldsWanted files apart
            (write_updated calls keys update path tmp files o)
    write_updated-IsReplaced none h = failed calls path tmp HoldsWanted files apart
    write_updated-IsReplaced (some original) h =
        write_rendered-IsReplaced calls path tmp HoldsWanted files apart _ λ text e.
          associations_from_data-render_mimeapps original (keys (wanted update (files path)))
            (wanted update (files path)) text fit
            (subst
              (λ x.
                render_mimeapps original (keys (update (associations_from_data x)))
                  (update (associations_from_data x))
                ≡ some text)
              (h original refl) e)

    pub written-IsReplaced :
        IsReplaced calls path tmp HoldsWanted files apart
          (write_user_mimeapps calls keys update path tmp files)
    unfolding write_user_mimeapps
    written-IsReplaced =
        write_updated-IsReplaced (read_original calls.read (files path))
          (read_original-content calls.read (files path))

-- Whichever calls fail, writeUserMimeapps leaves a file that reads as the updated associations and returns no
-- error, or leaves the file as it was and returns an error; another file is as it was, and so is the temporary
-- name, where it was free and the file can be removed. This is where the temporary name is another one than
-- that of the file, and the updated associations can be written.
pub write_user_mimeapps-Outcome :
    (calls : Calls) (keys : MimeAssociations → Keys) (update : MimeAssociations → MimeAssociations)
    (path tmp q : Bytes) (files : GoMap Bytes)
    → eqb tmp path ≡ false
    → AreFit (keys (wanted update (files path))) (wanted update (files path))
    → eqb path q ≡ false
    → IsSpared calls tmp files q
    → Outcome
        (λ text. associations_from_data text ≡ wanted update (files path))
        path
        files
        (write_user_mimeapps calls keys update path tmp files)
      × ((write_user_mimeapps calls keys update path tmp files).0 q ≡ files q)
write_user_mimeapps-Outcome calls keys update path tmp q files apart fit other spared =
    let r = written-IsReplaced calls keys update path tmp files apart fit in
    (r.outcome, r.others q other spared)
