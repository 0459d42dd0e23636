-- ===== src/Desktop/Search.antt =====
-- desktop/mimeapps.go: where the mimeapps.list files are. filepath.Join and the environment are arguments.
use mathlib.Core.Bool.{true≢false}
use dankgo.Prelude.{
  ◌≡◌, refl, sym, subst, ◌∙◌, false, ◌||◌, List, [], ◌∷◌, ◌++◌, map, if◌then◌else◌, Bool-cases, inl,
  inr, All,
}
use dankgo.Prelude.Text.{Bytes, codes, eqb}
use dankgo.Prelude.Split.{split}
use dankgo.Prelude.Members.{contains, contains-append, eqb_sym}
use dankgo.Desktop.Groups.{is_empty, trim_space}

-- The base directories, and the variables XDG_CONFIG_DIRS and XDG_DATA_DIRS.
pub record Environment : Type 0 where
  pub config_home : Bytes
  pub data_home : Bytes
  pub config_dirs : Bytes
  pub data_dirs : Bytes

abbrev list_name : Bytes
list_name = codes "mimeapps.list"

-- The closure add of mimeappsSearchPaths; what was seen is what was found.
unfoldable pub add_path : List Bytes → Bytes → List Bytes
unfolding contains
add_path found p = if is_empty p || contains found p then found else found ++ p ∷ []

abbrev pub add_paths : List Bytes → List Bytes → List Bytes
add_paths found [] = found
add_paths found (p ∷ ps) = add_paths (add_path found p) ps

module _ (join : List Bytes → Bytes) (env : Environment) where
  unfoldable pub mimeapps_write_path : Bytes
  mimeapps_write_path = join (env.config_home ∷ list_name ∷ [])

  abbrev pub config_paths : List Bytes
  config_paths =
      if is_empty env.config_dirs
      then codes "/etc/xdg/mimeapps.list" ∷ []
      else map (λ d. join (trim_space d ∷ list_name ∷ [])) (split 58 env.config_dirs)

  abbrev pub data_paths : List Bytes
  data_paths =
      if is_empty env.data_dirs
      then codes "/usr/local/share/applications/mimeapps.list"
        ∷ codes "/usr/share/applications/mimeapps.list"
        ∷ []
      else map (λ d. join (trim_space d ∷ codes "applications" ∷ list_name ∷ []))
          (split 58 env.data_dirs)

  unfoldable pub mimeapps_search_paths : List Bytes
  unfolding mimeapps_write_path add_path split trim_space
  mimeapps_search_paths = add_paths [] (
      mimeapps_write_path ∷ config_paths
      ++ join (env.data_home ∷ codes "applications" ∷ list_name ∷ []) ∷ data_paths)

-- The list starts with the path, which stands once.
abbrev pub StartsOnce : Bytes → List Bytes → Type 0
StartsOnce p paths = (rest : List Bytes) × (paths ≡ p ∷ rest) × (contains rest p ≡ false)

add_path-StartsOnce :
    (p q : Bytes) (rest : List Bytes)
    → contains rest p ≡ false
    → StartsOnce p (add_path (p ∷ rest) q)
unfolding add_path contains
add_path-StartsOnce p q rest h = elim (Bool-cases (is_empty q)) [
  | inl e ↦ rw e (rest, refl, h)
  | inr e ↦ elim (Bool-cases (eqb p q)) [
    | inl s ↦ rw (e, s) (rest, refl, h)
    | inr s ↦ elim (Bool-cases (contains rest q)) [
      | inl c ↦ rw (e, s, c) (rest, refl, h)
      | inr c ↦
          rw (e, s, c)
            (rest ++ q ∷ [], refl, contains-append rest (q ∷ []) p ∙ rw (h, eqb_sym q p ∙ s) refl)
    ]
  ]
]

add_paths-StartsOnce :
    (p : Bytes) (rest ps : List Bytes)
    → contains rest p ≡ false
    → StartsOnce p (add_paths (p ∷ rest) ps)
add_paths-StartsOnce p rest [] h = (rest, refl, h)
add_paths-StartsOnce p rest (q ∷ ps) h =
    let (next, e, c) = add_path-StartsOnce p q rest h in
    subst (λ x. StartsOnce p (add_paths x ps)) (sym e) (add_paths-StartsOnce p next ps c)

add_path-first : (p : Bytes) → is_empty p ≡ false → add_path [] p ≡ p ∷ []
unfolding add_path contains
add_path-first p h = rw h refl

-- The user's file is the first that is read, and is read once.
pub mimeapps_search_paths-StartsOnce :
    (join : List Bytes → Bytes) (env : Environment)
    → is_empty (mimeapps_write_path join env) ≡ false
    → StartsOnce (mimeapps_write_path join env) (mimeapps_search_paths join env)
unfolding mimeapps_search_paths contains
mimeapps_search_paths-StartsOnce join env h =
    let p = mimeapps_write_path join env in
    let ps =
      config_paths join env
      ++ join (env.data_home ∷ codes "applications" ∷ list_name ∷ []) ∷ data_paths join env in
    subst (λ x. StartsOnce p (add_paths x ps)) (sym (add_path-first p h))
      (add_paths-StartsOnce p [] ps refl)

-- The other paths are other ones.
pub apart_from :
    (p : Bytes) (rest : List Bytes) → contains rest p ≡ false → All (λ q. eqb p q ≡ false) rest
unfolding contains
apart_from p [] h = tt
apart_from p (q ∷ rest) h = elim (Bool-cases (eqb q p)) [
  | inl s ↦ absurd (true≢false (rw s at h))
  | inr s ↦ (eqb_sym p q ∙ s, apart_from p rest (rw s at h))
]
