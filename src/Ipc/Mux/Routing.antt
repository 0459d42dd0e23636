-- ===== src/Ipc/Mux/Routing.antt =====
-- Which handler a request reaches after a route has been added.
use dankgo.Prelude.{
  ◌≡◌, refl, sym, ◌∙◌, ap, true, false, none, some, List, [], ◌∷◌, ◌++◌, if◌then◌else◌, arith,
  Bool-cases, inl, inr,
}
use mathlib.Core.Bool.{true≢false}
use dankgo.Prelude.Text.{Bytes, eqb, eqb_iff, has_prefix}
use dankgo.Ipc.Mux.{
  PrefixRoute, Mux, find, set_route, handle, handle_prefix, first_prefix, or_prefix, serve_ipc,
}

same_method : (k method m : Bytes) → eqb k method ≡ true → eqb k m ≡ eqb method m
same_method k method m h = ap (λ x. eqb x m) ((eqb_iff k method).0 h)

other_method : (k method m : Bytes) → eqb k method ≡ false → eqb k m ≡ true → eqb method m ≡ false
other_method k method m h e = elim (Bool-cases (eqb method m)) [
  | inl l ↦ absurd (
      true≢false
        (sym ((eqb_iff k method).1 ((eqb_iff k m).0 e ∙ sym ((eqb_iff method m).0 l))) ∙ h))
  | inr l ↦ l
]

module _ {H : Type 0} where
  find-set_route :
      (method m : Bytes) (h : H) (rs : List (Bytes × H))
      → find m (set_route method h rs) ≡ (if eqb method m then some h else find m rs)
  unfolding set_route
  find-set_route method m h [] = refl
  find-set_route method m h ((k, g) ∷ rs) =
      ground (arith, find-set_route method m h rs, same_method k method m, other_method k method m)

  -- After Handle the method is served by its handler, whatever prefixes match it, and every other
  -- method is served as before.
  serve_ipc-handle :
      (mux : Mux H) (method m : Bytes) (h : H)
      → serve_ipc (handle method h mux) m ≡ (if eqb method m then some h else serve_ipc mux m)
  unfolding serve_ipc handle
  serve_ipc-handle mux method m h = ground (arith, find-set_route method m h mux.exact)

  first_prefix-append :
      (m prefix : Bytes) (h : H) (rs : List (PrefixRoute H))
      → first_prefix m (rs ++ record { prefix = prefix; handler = h } ∷ [])
        ≡ or_prefix (first_prefix m rs) (if has_prefix m prefix then some h else none)
  unfolding first_prefix
  first_prefix-append m prefix h [] = refl
  first_prefix-append m prefix h (r ∷ rs) = ground (arith, first_prefix-append m prefix h rs)

  -- HandlePrefix serves the methods with the prefix that nothing registered before it serves, and no
  -- others change.
  serve_ipc-handle_prefix :
      (mux : Mux H) (prefix m : Bytes) (h : H)
      → serve_ipc (handle_prefix prefix h mux) m
        ≡ or_prefix (serve_ipc mux m) (if has_prefix m prefix then some h else none)
  unfolding serve_ipc handle_prefix
  serve_ipc-handle_prefix mux prefix m h =
      ground (arith, first_prefix-append m prefix h mux.prefixes)

  -- After Handle the method is served by its handler, whatever prefixes match it, and every other method is
  -- served as before; HandlePrefix serves the methods with the prefix that nothing registered before it serves,
  -- and no others change.
  pub serve_ipc-registered :
      (mux : Mux H) (name m : Bytes) (h : H)
      → (serve_ipc (handle name h mux) m ≡ (if eqb name m then some h else serve_ipc mux m))
        × (serve_ipc (handle_prefix name h mux) m
            ≡ or_prefix (serve_ipc mux m) (if has_prefix m name then some h else none))
  serve_ipc-registered mux name m h =
      (serve_ipc-handle mux name m h, serve_ipc-handle_prefix mux name m h)
