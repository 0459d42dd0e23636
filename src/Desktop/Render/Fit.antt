-- ===== src/Desktop/Render/Fit.antt =====
-- desktop/mimeapps.go: associations that can be written, and the entries that managedGroups makes of them.
use dankgo.Prelude.{
  ◌&&◌, not, Bool, true, false, Option, none, some, List, [], ◌∷◌, ap, refl, sym, ◌≡◌, ◌∙◌, arith,
  if◌then◌else◌, Bool-cases, inl, inr, All,
}
use dankgo.Prelude.Text.{Bytes, eqb, eqb_iff}
use dankgo.Prelude.Split.{IsFree, IsFree-append}
use dankgo.Prelude.Members.{GoMap, contains}
use dankgo.Desktop.Groups.{is_empty, first_is}
use dankgo.Desktop.Associations.{MimeAssociations}
use dankgo.Desktop.Render.{
  Entries, Keys, is_unsafe, is_safe_ini_field, are_safe, clone, entry_at_key, lookup,
}
use dankgo.Desktop.Render.Fields.{IsTrimmed, AreFields}
use dankgo.Desktop.Render.Steps.{and_true}
use dankgo.Desktop.Render.Every.{AreWritten}

-- A MIME type as the key of a line.
pub record IsKey (key : Bytes) : Type 0 where
  pub nonempty : is_empty key ≡ false
  pub trimmed : IsTrimmed key
  pub no_equals : IsFree 61 key
  pub no_comment : first_is 35 key ≡ false

-- An application as a part of a list.
pub record IsId (id : Bytes) : Type 0 where
  pub nonempty : is_empty id ≡ false
  pub trimmed : IsTrimmed id
  pub no_semicolon : IsFree 59 id

abbrev pub IsOneId : Option Bytes → Type 0
IsOneId none = Unit
IsOneId (some id) = IsId id

abbrev pub AreIds : Option (List Bytes) → Type 0
AreIds none = Unit
AreIds (some ids) = All IsId ids

-- The keys are all the keys of the map, and its keys and values can be written.
pub record IsFit {A : Type 0} (P : Option A → Type 0) (keys : List Bytes) (m : GoMap A)
    : Type 0 where
  pub listed : (k : Bytes) → contains keys k ≡ false → m k ≡ none
  pub fit : All (λ k. IsKey k × P (m k)) keys

pub record AreFit (keys : Keys) (assoc : MimeAssociations) : Type 0 where
  pub defaults : IsFit IsOneId keys.defaults assoc.defaults
  pub added : IsFit AreIds keys.added assoc.added
  pub removed : IsFit AreIds keys.removed assoc.removed

is_safe_ini_field-IsFree : (s : Bytes) → is_safe_ini_field s ≡ true → IsFree 10 s × IsFree 91 s
is_safe_ini_field-IsFree [] h = (tt, tt)
is_safe_ini_field-IsFree (c ∷ s) h =
    let (a, b) = and_true (not (is_unsafe c)) (is_safe_ini_field s) h in
    let (f, g) = is_safe_ini_field-IsFree s b in ((ground arith, f), (ground arith, g))

pub are_safe-AreWritten : (es : Entries) → are_safe es ≡ true → AreWritten (IsFree 10) es
are_safe-AreWritten [] h = tt
are_safe-AreWritten ((k, v) ∷ es) h =
    let (a, b) = and_true (is_safe_ini_field k && is_safe_ini_field v) (are_safe es) h in
    let (i, j) = and_true (is_safe_ini_field k) (is_safe_ini_field v) a in
    (
      IsFree-append 10 k (61 ∷ v) (is_safe_ini_field-IsFree k i).0
          (refl, (is_safe_ini_field-IsFree v j).0),
      are_safe-AreWritten es b,
    )

abbrev pub IsValue : Option Bytes → Type 0
IsValue none = Unit
IsValue (some v) = IsTrimmed v

entry_at_key-AreFields :
    (k : Bytes) (o : Option Bytes) (es : Entries)
    → IsKey k
    → IsValue o
    → are_safe (entry_at_key k o es) ≡ true
    → (are_safe es ≡ true → AreFields es)
    → AreFields (entry_at_key k o es)
entry_at_key-AreFields k none es i v h f = f h
entry_at_key-AreFields k (some value) es i v h f =
    let (a, b) = and_true (is_safe_ini_field k && is_safe_ini_field value) (are_safe es) h in
    let (s, t) = and_true (is_safe_ini_field k) (is_safe_ini_field value) a in
    (
      record {
        nonempty = i.nonempty;
        trimmed = i.trimmed;
        no_equals = i.no_equals;
        no_bracket = (is_safe_ini_field-IsFree k s).1;
        no_comment = i.no_comment;
        value_trimmed = v;
      },
      f b,
    )

-- The entries of a map can be read back.
pub clone-AreFields :
    (m : GoMap Bytes) (ks : List Bytes)
    → All (λ k. IsKey k × IsValue (m k)) ks
    → are_safe (clone m ks) ≡ true
    → AreFields (clone m ks)
clone-AreFields m [] f h = tt
clone-AreFields m (k ∷ ks) ((i, v), f) h =
    entry_at_key-AreFields k (m k) (clone m ks) i v h (clone-AreFields m ks f)

lookup-same :
    (k j : Bytes) (o : Option Bytes) (es : Entries)
    → eqb k j ≡ true
    → (o ≡ none → lookup es j ≡ none)
    → lookup (entry_at_key k o es) j ≡ o
lookup-same k j none es s h = h refl
lookup-same k j (some v) es s h = rw s refl

lookup-other :
    (k j : Bytes) (o : Option Bytes) (es : Entries)
    → eqb k j ≡ false
    → lookup (entry_at_key k o es) j ≡ lookup es j
lookup-other k j none es s = refl
lookup-other k j (some v) es s = rw s refl

none_either : (b : Bool) (o : Option Bytes) → o ≡ none → (if b then o else none) ≡ none
none_either true o e = e
none_either false o e = refl

lookup-clone :
    (m : GoMap Bytes) (ks : List Bytes) (j : Bytes)
    → lookup (clone m ks) j ≡ (if contains ks j then m j else none)
unfolding contains
lookup-clone m [] j = refl
lookup-clone m (k ∷ ks) j =
    let ih = lookup-clone m ks j in
    elim (Bool-cases (eqb k j)) [
      | inl s ↦
          let e : m k ≡ m j = ap m ((eqb_iff k j).0 s) in
          rw s (
            lookup-same k j (m k) (clone m ks) s
              (λ n. ih ∙ none_either (contains ks j) (m j) (sym e ∙ n))
            ∙ e)
      | inr s ↦ rw s (lookup-other k j (m k) (clone m ks) s ∙ ih)
    ]

-- The entries hold the whole map, where its keys are listed.
pub lookup-listed :
    (m : GoMap Bytes) (ks : List Bytes)
    → ((k : Bytes) → contains ks k ≡ false → m k ≡ none)
    → (j : Bytes) → lookup (clone m ks) j ≡ m j
lookup-listed m ks h j =
    lookup-clone m ks j
    ∙ elim (Bool-cases (contains ks j)) [ inl c ↦ rw c refl | inr c ↦ rw c (sym (h j c)) ]
