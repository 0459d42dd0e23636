-- ===== src/Desktop/Written/Default.antt =====
-- desktop/mimeapps.go and desktop/mime.go: GetDefault after setDefaultAssociations has written the file.
use mathlib.Core.Bool.{true≢false}
use dankgo.Prelude.{
  drop, Bool, true, false, some, List, [], ◌∷◌, ap, refl, sym, subst, ◌≡◌, ◌∙◌, inl, inr, All,
}
use dankgo.Prelude.Text.{Bytes, eqb}
use dankgo.Prelude.Members.{GoMap, contains, list_at}
use dankgo.Desktop.Groups.{is_empty}
use dankgo.Desktop.Associations.{
  MimeAssociations, associations_from_data, merged_associations, set_default_associations,
  desktop_id,
}
use dankgo.Desktop.Chain.{canonical_mime}
use dankgo.Desktop.Choice.{Desktop, get_default}
use dankgo.Desktop.Choice.Chosen.{get_default-set_default_associations}
use dankgo.Desktop.Render.{Keys}
use dankgo.Desktop.Render.Fit.{AreFit}
use dankgo.Desktop.Search.{
  Environment, mimeapps_write_path, mimeapps_search_paths, mimeapps_search_paths-StartsOnce,
  apart_from,
}
use dankgo.Desktop.Written.Kept.{Outcome, IsSpared, wanted, written-IsReplaced}
use dankgo.Desktop.Written.{
  Calls, content, write_user_mimeapps, write_default_associations, read_one, read_files,
  merged_files,
}

read_files-same :
    (after before : GoMap Bytes) (paths : List Bytes)
    → All (λ q. after q ≡ before q) paths
    → read_files after paths ≡ read_files before paths
read_files-same after before [] h = refl
read_files-same after before (q ∷ paths) (e, h) = rw (e, read_files-same after before paths h) refl

spared_same :
    (calls : Calls) (path tmp : Bytes) (files after : GoMap Bytes) (paths : List Bytes)
    → ((q : Bytes) → eqb path q ≡ false → IsSpared calls tmp files q → after q ≡ files q)
    → All (λ q. eqb path q ≡ false) paths
    → All (IsSpared calls tmp files) paths
    → All (λ q. after q ≡ files q) paths
spared_same calls path tmp files after [] h o s = tt
spared_same calls path tmp files after (q ∷ paths) h (o, os) (s, ss) =
    (h q o s, spared_same calls path tmp files after paths h os ss)

default_read :
    (d : Desktop) (mimes : List Bytes) (id mime : Bytes) (user : MimeAssociations) (path : Bytes)
    (rest : List Bytes) (files after : GoMap Bytes)
    → d.merged ≡ merged_files after (path ∷ rest)
    → ((text : Bytes) × (after path ≡ some text)
        × (associations_from_data text ≡ set_default_associations mimes id user))
    → All (λ q. after q ≡ files q) rest
    → All (λ a. contains (list_at (a.removed mime)) (desktop_id id) ≡ false) (read_files files rest)
    → contains mimes mime ≡ true
    → is_empty mime ≡ false
    → canonical_mime d.tables mime ≡ mime
    → get_default d mime ≡ some (desktop_id id)
unfolding merged_files
default_read d mimes id mime user path rest files after m (text, t, w) same o c e k =
    get_default-set_default_associations d mimes id mime user (read_files files rest)
      (m
        ∙ (ap (λ x. merged_associations (read_one x (read_files after rest))) t
            ∙ (ap (λ x. merged_associations (x ∷ read_files after rest)) w
                ∙ ap (λ x. merged_associations (set_default_associations mimes id user ∷ x))
                    (read_files-same after files rest same))))
      c e k o

outcome_written :
    (P : Bytes → Type 0) (path : Bytes) (before : GoMap Bytes) (result : GoMap Bytes × Bool)
    → Outcome P path before result
    → result.1 ≡ true
    → (text : Bytes) × (result.0 path ≡ some text) × P text
outcome_written P path before (after, ok) (inl (h, text, t, p)) e = (text, t, p)
outcome_written P path before (after, ok) (inr (h, t)) e = absurd (true≢false (sym e ∙ h))

-- When setDefaultAssociations returns no error, GetDefault, which reads the files of the search paths afterwards,
-- returns the application that was set for each of the types. This is where the user's file has a path, and the
-- temporary name is another one than that path and those of the other files, unless it was free and can be
-- removed; no other file removes the application for the type; the type is canonical and not empty; and
-- the updated associations can be written.
pub get_default-write_default_associations :
    (d : Desktop) (join : List Bytes → Bytes) (env : Environment) (calls : Calls)
    (keys : MimeAssociations → Keys) (tmp : Bytes) (mimes : List Bytes) (id mime : Bytes)
    (files : GoMap Bytes)
    → (write_default_associations calls keys (mimeapps_write_path join env) tmp mimes id files).1
      ≡ true
    → d.merged
      ≡ merged_files
          (write_default_associations calls keys
            (mimeapps_write_path join env)
            tmp
            mimes
            id
            files).0
          (mimeapps_search_paths join env)
    → is_empty (mimeapps_write_path join env) ≡ false
    → eqb tmp (mimeapps_write_path join env) ≡ false
    → AreFit
        (keys (wanted (set_default_associations mimes id) (files (mimeapps_write_path join env))))
        (wanted (set_default_associations mimes id) (files (mimeapps_write_path join env)))
    → All (IsSpared calls tmp files) (drop 1 (mimeapps_search_paths join env))
    → All
        (λ a. contains (list_at (a.removed mime)) (desktop_id id) ≡ false)
        (read_files files (drop 1 (mimeapps_search_paths join env)))
    → contains mimes mime ≡ true
    → is_empty mime ≡ false
    → canonical_mime d.tables mime ≡ mime
    → get_default d mime ≡ some (desktop_id id)
unfolding write_default_associations
get_default-write_default_associations d join env calls keys tmp mimes id mime files ok m named
      apart fit spared o c e k =
    let path = mimeapps_write_path join env in
    let update = set_default_associations mimes id in
    let after = (write_user_mimeapps calls keys update path tmp files).0 in
    let r = written-IsReplaced calls keys update path tmp files apart fit in
    let (rest, starts, once) = mimeapps_search_paths-StartsOnce join env named in
    default_read d mimes id mime (associations_from_data (content (files path))) path rest files
      after (m ∙ ap (merged_files after) starts)
      (outcome_written (λ text. associations_from_data text ≡ wanted update (files path)) path files
        (write_user_mimeapps calls keys update path tmp files) r.outcome ok)
      (spared_same calls path tmp files after rest r.others (apart_from path rest once)
        (subst (λ x. All (IsSpared calls tmp files) (drop 1 x)) starts spared))
      (subst
        (λ x.
          All (λ a. contains (list_at (a.removed mime)) (desktop_id id) ≡ false)
            (read_files files (drop 1 x)))
        starts o)
      c e k
