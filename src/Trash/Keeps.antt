-- ===== src/Trash/Keeps.antt =====
-- What the operations under the trash leave alone.
use dankgo.Prelude.{
  ◌≡◌, ap, ◌∙◌, Bool, true, false, ◌||◌, Option, some, [], ◌∷◌, arith, Bool-cases, inl, inr,
}
use dankgo.Prelude.Text.{Bytes}
use dankgo.Trash.Tree.{
  FilePath, Node, Fs, Refusals, same, same_iff, exists, set, is_some, mkdir_all, create_new,
  add_dir,
}

-- Each node of the first file system is in the second one, at the same path.
abbrev pub Keeps : Fs → Fs → Type 0
Keeps fs after = (q : FilePath) (n : Node) → fs q ≡ some n → after q ≡ some n

pub Keeps-trans : (a b c : Fs) → Keeps a b → Keeps b c → Keeps a c
Keeps-trans a b c f g q n h = g q n (f q n h)

-- A change of the second where the first has nothing.
pub Keeps-set :
    (fs after : Fs) (p : FilePath) (new : Option Node)
    → Keeps fs after
    → exists fs p ≡ false
    → Keeps fs (set p new after)
unfolding exists
Keeps-set fs after p new k free q n h = elim (Bool-cases (same p q)) [
  | inl e ↦
      let there : is_some (fs p) ≡ true =
        ap (λ x. is_some (fs x)) ((same_iff p q).0 e) ∙ ap is_some h in
      absurd (cc)
  | inr e ↦ rw e (k q n h)
]

module _ (no : Refusals) where
  add_dir-Keeps :
      (fs mid : Fs) (ok : Bool) (p parent : FilePath)
      → Keeps fs mid
      → exists fs p ≡ false
      → Keeps fs ((add_dir no ok p parent mid).0)
  add_dir-Keeps fs mid false p parent k free = k
  add_dir-Keeps fs mid true p parent k free = elim (Bool-cases (no.mkdir p)) [
    | inl e ↦ rw e k
    | inr e ↦ rw e (Keeps-set fs mid p _ k free)
  ]

  pub mkdir_all-Keeps : (p : FilePath) (fs : Fs) → Keeps fs ((mkdir_all no p fs).0)
  unfolding mkdir_all
  mkdir_all-Keeps [] fs = λ q n h. h
  mkdir_all-Keeps (c ∷ cs) fs =
      let ih = mkdir_all-Keeps cs fs in
      elim (Bool-cases (is_some (fs (c ∷ cs)))) [
        | inl e ↦ rw e (λ q n h. h)
        | inr e ↦
            rw e (add_dir-Keeps fs ((mkdir_all no cs fs).0) _ (c ∷ cs) cs ih (unfold exists in e))
      ]

  pub create_new-Keeps :
      (p : FilePath) (text : Bytes) (fs : Fs) → Keeps fs ((create_new no p text fs).0)
  unfolding create_new
  create_new-Keeps p text fs = elim (Bool-cases (exists fs p || no.create p)) [
    | inl e ↦ rw e (λ q n h. h)
    | inr e ↦
        let free : exists fs p ≡ false = ground arith in
        elim (Bool-cases (no.write p)) [
          | inl w ↦ rw (e, w) (Keeps-set fs fs p _ (λ q n h. h) free)
          | inr w ↦ rw (e, w) (Keeps-set fs fs p _ (λ q n h. h) free)
        ]
  ]
