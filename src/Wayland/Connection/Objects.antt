-- ===== src/Wayland/Connection/Objects.antt =====
-- The identifiers of objects: Register gives out numbers that are not in use.
use dankgo.Prelude.{
  ℕ, suc, ◌≡◌, refl, ◌∙◌, ap, false, none, some, [], ◌≤◌, ◌<◌, ◌+◌, ◌%◌, ◌^◌, ◌==◌, arith,
}
use dankgo.Wayland.Connection.{Proxy, Context, register, register_with_id, delete_id, get_proxy}

abbrev pub new_context : Context
new_context = record { objects = λ i. none; current_id = 0; fds = [] }

-- What an application does with the objects. Identifiers of the server's range are given with
-- RegisterWithID.
pub data Run : ℕ → Context → Type 0 where
  start : Run 0 new_context
  registered : {n : ℕ} (p : Proxy) (ctx : Context) → Run n ctx → Run (suc n) (register p ctx).0
  adopted :
      {n : ℕ} (p : Proxy) (id : ℕ) (ctx : Context)
      → 2 ^ 31 ≤ id
      → Run n ctx
      → Run n (register_with_id p id ctx)
  deleted : {n : ℕ} (id : ℕ) (ctx : Context) → Run n ctx → Run n (delete_id id ctx)

abbrev IsCounted : ℕ → Context → Type 0
IsCounted n ctx = (ctx.current_id ≡ n) × ((id : ℕ) → n < id → id < 2 ^ 31 → ctx.objects id ≡ none)

Run-IsCounted : (n : ℕ) (ctx : Context) → Run n ctx → n < 2 ^ 31 → IsCounted n ctx
unfolding register register_with_id delete_id
Run-IsCounted n ctx start h = (refl, λ id k l. refl)
Run-IsCounted n ctx (registered {n = m} p ctx' r) h =
    let v = Run-IsCounted m ctx' r (omega (arith, h)) in
    (omega (arith, v.0, h), λ id k l. ground (arith, v.1 id, v.0, h))
Run-IsCounted n ctx (adopted p id ctx' b r) h =
    let v = Run-IsCounted n ctx' r h in (v.0, λ i k l. ground (arith, v.1 i, b))
Run-IsCounted n ctx (deleted id ctx' r) h =
    let v = Run-IsCounted n ctx' r h in (v.0, λ i k l. ground (arith, v.1 i))

-- Below 2 ^ 31 registrations, Register gives an identifier that no object has, finds the object under
-- it from then on, and leaves every other identifier as it was.
register-get_proxy :
    (n : ℕ) (p : Proxy) (ctx : Context)
    → Run n ctx
    → n + 1 < 2 ^ 31
    → let out = register p ctx in
      (get_proxy ctx out.1 ≡ none)
      × ((get_proxy out.0 out.1 ≡ some p)
          × ((id : ℕ) → (id == out.1) ≡ false → get_proxy out.0 id ≡ get_proxy ctx id))
unfolding register get_proxy
register-get_proxy n p ctx r h =
    let v = Run-IsCounted n ctx r (omega (arith, h)) in
    let id : (ctx.current_id + 1) % 2 ^ 32 ≡ suc n = omega (arith, v.0, h) in
    (
      ap ctx.objects id ∙ v.1 (suc n) (omega arith) (omega (arith, h)),
      (ground arith, λ i k. rw k refl),
    )
