-- ===== src/Trash/Paths.antt =====
-- The texts of paths in trash/trash.go, as path/filepath writes and joins them, and the ways between paths.
use dankgo.Prelude.{
  ◌≡◌, refl, ap, ◌∙◌, Bool, true, false, ◌||◌, List, [], ◌∷◌, ◌++◌, append-nil, arith,
  if◌then◌else◌, ◌==◌, All,
}
use dankgo.Prelude.Text.{Bytes, eqb}
use dankgo.Prelude.Split.{split, split-free, split_middle, IsFree}
use dankgo.Trash.Escape.{AreBytes}
use dankgo.Trash.Tree.{FilePath}

abbrev pub dot : Bytes
dot = 46 ∷ []

abbrev pub dots : Bytes
dots = 46 ∷ 46 ∷ []

abbrev pub is_nil : Bytes → Bool
is_nil [] = true
is_nil (c ∷ cs) = false

-- filepath.Dir: the root is its own parent.
abbrev pub dir : FilePath → FilePath
dir [] = []
dir (c ∷ cs) = cs

-- filepath.Base
abbrev pub base_name : FilePath → Bytes
base_name [] = 47 ∷ []
base_name (c ∷ cs) = c

-- The text of the way down.
unfoldable pub show_rel : FilePath → Bytes
show_rel [] = dot
show_rel (c ∷ []) = c
show_rel (c ∷ d ∷ cs) = show_rel (d ∷ cs) ++ 47 ∷ c

-- The text of an absolute path.
unfoldable pub show_abs : FilePath → Bytes
unfolding show_rel
show_abs [] = 47 ∷ []
show_abs (c ∷ cs) = 47 ∷ show_rel (c ∷ cs)

-- filepath.Clean over the parts of a text, from a path.
unfoldable pub clean : FilePath → List Bytes → FilePath
unfolding eqb
clean from [] = from
clean from (c ∷ cs) =
    clean (if is_nil c || eqb c dot then from else if eqb c dots then dir from else c ∷ from) cs

-- filepath.Join of a path and a text.
unfoldable pub resolve : FilePath → Bytes → FilePath
unfolding clean split
resolve from s = clean from (split 47 s)

-- filepath.IsAbs
abbrev pub is_abs : Bytes → Bool
is_abs [] = false
is_abs (c ∷ cs) = c == 47

-- What a name in a path that the system keeps can be.
abbrev pub IsName : Bytes → Type 0
IsName c =
    IsFree 47 c × (AreBytes c × ((is_nil c ≡ false) × ((eqb c dot ≡ false) × (eqb c dots ≡ false))))

abbrev pub AreNames : FilePath → Type 0
AreNames = All IsName

clean-append : (from : FilePath) (a b : List Bytes) → clean from (a ++ b) ≡ clean (clean from a) b
unfolding clean
clean-append from [] b = refl
clean-append from (c ∷ cs) b =
    clean-append (if is_nil c || eqb c dot then from else if eqb c dots then dir from else c ∷ from)
      cs b

clean-name : (from : FilePath) (c : Bytes) → IsName c → clean from (c ∷ []) ≡ c ∷ from
unfolding clean
clean-name from c (f, (b, (n, (d, e)))) = rw (n, d, e) refl

resolve-name : (from : FilePath) (c : Bytes) → IsName c → clean from (split 47 c) ≡ c ∷ from
resolve-name from c n = ap (clean from) (split-free 47 c (n.0)) ∙ clean-name from c n

-- The text of the way down leads from any path down that way.
pub resolve-show_rel : (from p : FilePath) → AreNames p → resolve from (show_rel p) ≡ p ++ from
unfolding show_rel resolve
resolve-show_rel from [] a = unfold split clean eqb in refl
resolve-show_rel from (c ∷ []) (n, a) = resolve-name from c n
resolve-show_rel from (c ∷ d ∷ cs) (n, a) =
    ap (clean from) (split_middle 47 (show_rel (d ∷ cs)) c)
    ∙ (clean-append from (split 47 (show_rel (d ∷ cs))) (split 47 c)
        ∙ (ap (λ x. clean x (split 47 c)) (resolve-show_rel from (d ∷ cs) a)
            ∙ resolve-name (d ∷ cs ++ from) c n))

pub resolve-show_abs : (p : FilePath) → AreNames p → resolve [] (show_abs p) ≡ p
resolve-show_abs [] a = unfold resolve show_abs split clean eqb in refl
resolve-show_abs (c ∷ cs) a =
    unfold show_abs in
    (resolve-slash (show_rel (c ∷ cs)) ∙ (resolve-show_rel [] (c ∷ cs) a ∙ append-nil (c ∷ cs)))
  where
    resolve-slash : (s : Bytes) → resolve [] (47 ∷ s) ≡ resolve [] s
    resolve-slash s = unfold resolve split clean eqb in refl

pub is_abs-show_abs : (p : FilePath) → is_abs (show_abs p) ≡ true
unfolding show_abs
is_abs-show_abs [] = refl
is_abs-show_abs (c ∷ cs) = refl

is_abs-append : (a b : Bytes) → is_nil a ≡ false → is_abs (a ++ b) ≡ is_abs a
is_abs-append [] b h = ground arith
is_abs-append (c ∷ cs) b h = refl

is_abs-name : (c : Bytes) → IsName c → is_abs c ≡ false
is_abs-name [] n = refl
is_abs-name (x ∷ xs) ((h, f), n) = h

pub show_rel_nonempty : (p : FilePath) → AreNames p → is_nil (show_rel p) ≡ false
unfolding show_rel
show_rel_nonempty [] a = refl
show_rel_nonempty (c ∷ []) (n, a) = (n.1).1.0
show_rel_nonempty (c ∷ d ∷ cs) (n, a) =
    is_nil-append (show_rel (d ∷ cs)) c (show_rel_nonempty (d ∷ cs) a)
  where
    is_nil-append : (a c : Bytes) → is_nil a ≡ false → is_nil (a ++ 47 ∷ c) ≡ false
    is_nil-append [] c h = refl
    is_nil-append (x ∷ a) c h = refl

pub is_abs-show_rel : (p : FilePath) → AreNames p → is_abs (show_rel p) ≡ false
unfolding show_rel
is_abs-show_rel [] a = refl
is_abs-show_rel (c ∷ []) (n, a) = is_abs-name c n
is_abs-show_rel (c ∷ d ∷ cs) (n, a) =
    is_abs-append (show_rel (d ∷ cs)) (47 ∷ c) (show_rel_nonempty (d ∷ cs) a)
    ∙ is_abs-show_rel (d ∷ cs) a
