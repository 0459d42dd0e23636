-- ===== src/Ipc/Mux.antt =====
-- ipc/mux.go: the routes of methods. H is the type of a handler; the map of exact routes is a list of
-- pairs, and `none` is the answer that the method is unknown.
pub mod Routing
use dankgo.Prelude.{
  ◌≡◌, refl, Bool, true, false, Option, none, some, List, [], ◌∷◌, ◌++◌, if◌then◌else◌, arith,
}
use dankgo.Prelude.Text.{Bytes, eqb, has_prefix}

pub record PrefixRoute (H : Type 0) : Type 0 where
  pub prefix : Bytes
  pub handler : H

pub record Mux (H : Type 0) : Type 0 where
  pub exact : List (Bytes × H)
  pub prefixes : List (PrefixRoute H)

module _ {H : Type 0} where
  unfoldable pub new_mux : Mux H
  new_mux = record { exact = []; prefixes = [] }

  abbrev pub find : Bytes → List (Bytes × H) → Option H
  find method [] = none
  find method ((m, h) ∷ rest) = if eqb m method then some h else find method rest

  -- m.exact[method] = h
  unfoldable pub set_route : Bytes → H → List (Bytes × H) → List (Bytes × H)
  set_route method h [] = (method, h) ∷ []
  set_route method h ((m, g) ∷ rest) =
      let later = set_route method h rest in if eqb m method then (m, h) ∷ rest else (m, g) ∷ later

  unfoldable pub handle : Bytes → H → Mux H → Mux H
  unfolding set_route
  handle method h m = record m { exact = set_route method h m.exact }

  unfoldable pub handle_prefix : Bytes → H → Mux H → Mux H
  handle_prefix prefix h m = record m {
    prefixes = m.prefixes ++ record { prefix = prefix; handler = h } ∷ [];
  }

  unfoldable pub first_prefix : Bytes → List (PrefixRoute H) → Option H
  first_prefix method [] = none
  first_prefix method (r ∷ rs) =
      if has_prefix method r.prefix then some r.handler else first_prefix method rs

  abbrev pub or_prefix : Option H → Option H → Option H
  or_prefix none later = later
  or_prefix (some h) later = some h

  -- The handler that ServeIPC calls.
  unfoldable pub serve_ipc : Mux H → Bytes → Option H
  unfolding first_prefix
  serve_ipc m method = or_prefix (find method m.exact) (first_prefix method m.prefixes)
