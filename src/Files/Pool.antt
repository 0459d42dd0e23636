-- ===== src/Files/Pool.antt =====
-- files/pool.go: the worker pool. The mutex makes submit and each round of work one step; tasks are
-- values of any type, and a worker is known only by the counter.
pub mod Run
mod Samples
use dankgo.Prelude.{
  ℕ, zero, suc, ◌+◌, ◌-◌, Bool, true, false, not, ◌||◌, Option, none, some, List, [], ◌∷◌, ◌++◌,
  if◌then◌else◌, ltb, leb, length, ◌==◌,
}

pub record Pool (A : Type 0) : Type 0 where
  pub max : ℕ
  pub queue : List A
  pub running : ℕ

module _ {A : Type 0} where
  -- newPool, at a maximum that may not be negative.
  unfoldable pub new_pool : ℕ → Pool A
  new_pool max = record { max = if ltb max 1 then 1 else max; queue = []; running = 0 }

  -- The flag is whether a worker is started.
  unfoldable pub submit : A → Pool A → Pool A × Bool
  submit task p =
      let queued = record p { queue = p.queue ++ task ∷ [] } in
      if leb p.max p.running
      then (queued, false)
      else (record queued { running = suc p.running }, true)

  abbrev pub next_task : Pool A → List A → Pool A × Option A
  next_task p [] = (record p { running = p.running - 1 }, none)
  next_task p (task ∷ queue) = (record p { queue = queue }, some task)

  -- One round of a worker: it retires, or it takes the task that it runs next.
  unfoldable pub work : Pool A → Pool A × Option A
  work p = next_task p p.queue

  abbrev pub is_nil : List A → Bool
  is_nil [] = true
  is_nil (x ∷ xs) = false

  -- The condition under which drain waits no longer.
  unfoldable pub is_drained : Pool A → Bool
  is_drained p = not (ltb 0 p.running || not (is_nil p.queue))
