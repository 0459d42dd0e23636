-- ===== src/Prelude/Members.antt =====
-- Lists of texts as sets, and Go maps from texts as functions.
use mathlib.Core.Path.{◌≡◌, refl, ap, ◌∙◌}
use mathlib.Core.Bool.{Bool, true, false, ◌||◌}
use mathlib.Core.List.{List, [], ◌∷◌, ◌++◌}
use mathlib.Core.Option.{Option, none, some}
use native.Mathlib.Omega.{arith}
use dankgo.Prelude.Tests.{if◌then◌else◌}
use dankgo.Prelude.Text.{Bytes, eqb, eqb_iff}

-- slices.Contains
unfoldable pub contains : List Bytes → Bytes → Bool
unfolding eqb
contains [] x = false
contains (y ∷ ys) x = eqb y x || contains ys x

-- No text stands twice.
abbrev pub AreDistinct : List Bytes → Type 0
AreDistinct [] = Unit
AreDistinct (x ∷ xs) = (contains xs x ≡ false) × AreDistinct xs

abbrev pub GoMap : Type 0 → Type 0
GoMap A = Bytes → Option A

abbrev pub assign : {A : Type 0} → Bytes → Option A → GoMap A → GoMap A
assign k v m j = if eqb k j then v else m j

abbrev pub list_at : Option (List Bytes) → List Bytes
list_at none = []
list_at (some xs) = xs

pub contains-append :
    (a b : List Bytes) (x : Bytes) → contains (a ++ b) x ≡ (contains a x || contains b x)
unfolding contains
contains-append [] b x = refl
contains-append (y ∷ a) b x = ground (arith, contains-append a b x)

pub eqb-contains : (xs : List Bytes) (x y : Bytes) → eqb x y ≡ true → contains xs x ≡ contains xs y
eqb-contains xs x y h = ap (contains xs) ((eqb_iff x y).0 h)

pub eqb_sym : (x y : Bytes) → eqb x y ≡ eqb y x
eqb_sym x y = ground (arith, eqb_iff x y, eqb_iff y x)

not_last :
    (b : Bool) (x y : Bytes) → b ≡ false → eqb y x ≡ false → (b || (eqb x y || false)) ≡ false
not_last b x y h k = rw (h, eqb_sym x y, k) refl

pub AreDistinct-append :
    (xs : List Bytes) (x : Bytes)
    → AreDistinct xs
    → contains xs x ≡ false
    → AreDistinct (xs ++ x ∷ [])
unfolding contains
AreDistinct-append [] x d h = (refl, tt)
AreDistinct-append (y ∷ ys) x (new, d) h = (
  contains-append ys (x ∷ []) y ∙ not_last (contains ys y) x y new (ground arith),
  AreDistinct-append ys x d (ground arith),
)
