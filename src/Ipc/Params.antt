-- ===== src/Ipc/Params.antt =====
-- ipc/params/params.go: the parameters of a request, as far as the server reads them. A value is a text,
-- a list of values or anything else that JSON holds.
use dankgo.Prelude.{Option, none, some, List, [], ◌∷◌, if◌then◌else◌}
use dankgo.Prelude.Text.{Bytes, eqb}

mutual
  pub data Value : Type 0 where
    text : Bytes → Value
    items : Values → Value
    other : Value

  pub data Values : Type 0 where
    no_more : Values
    more : Value → Values → Values

abbrev pub lookup : Bytes → List (Bytes × Value) → Option Value
lookup key [] = none
lookup key ((k, v) ∷ rest) = if eqb k key then some v else lookup key rest

abbrev add_text : Value → List Bytes → List Bytes
add_text (text s) rest = s ∷ rest
add_text (items vs) rest = rest
add_text other rest = rest

unfoldable pub texts_of : Values → List Bytes
texts_of no_more = []
texts_of (more v vs) = add_text v (texts_of vs)

abbrev texts_in : Option Value → List Bytes
texts_in none = []
texts_in (some (text s)) = []
texts_in (some (items vs)) = texts_of vs
texts_in (some other) = []

-- StringSlice: the texts of a list, and nothing where there is no list.
unfoldable pub string_slice : List (Bytes × Value) → Bytes → List Bytes
unfolding texts_of
string_slice params key = texts_in (lookup key params)
