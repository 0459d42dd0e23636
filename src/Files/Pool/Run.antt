-- ===== src/Files/Pool/Run.antt =====
-- Histories of a pool: what was submitted, what was started, how many tasks run and have ended.
use dankgo.Prelude.{
  ℕ, suc, ◌+◌, ◌≤◌, ◌<◌, ◌≡◌, refl, sym, ap, ◌∙◌, ◌⊎◌, inl, inr, true, Option, none, some, List, [],
  ◌∷◌, ◌++◌, append_assoc, append-nil, arith, leb, length, length-append, Bool-cases,
}
use dankgo.Files.Pool.{Pool, new_pool, submit, next_task, work, is_nil, is_drained}

pub record World (A : Type 0) : Type 0 where
  pub pool : Pool A
  pub submitted : List A
  pub started : List A
  pub executing : ℕ
  pub completed : ℕ

module _ {A : Type 0} where
  -- The world after a worker's round.
  abbrev pub worked : World A → Pool A × Option A → World A
  worked w (p, none) = record w { pool = p }
  worked w (p, some task) = record w {
    pool = p;
    started = w.started ++ task ∷ [];
    executing = suc w.executing;
  }

  -- A round of work needs a worker that runs no task.
  pub data Step : World A → World A → Type 0 where
    submitted_one :
        (task : A) (w : World A)
        → Step w (record w { pool = (submit task w.pool).0; submitted = w.submitted ++ task ∷ [] })
    worked_one : (w : World A) → w.executing < w.pool.running → Step w (worked w (work w.pool))
    completed_one :
        (w : World A) (n : ℕ)
        → w.executing ≡ suc n
        → Step w (record w { executing = n; completed = suc w.completed })

  abbrev pub fresh : ℕ → World A
  fresh max = record {
    pool = new_pool max;
    submitted = [];
    started = [];
    executing = 0;
    completed = 0;
  }

  pub data Run (max : ℕ) : World A → Type 0 where
    start : Run max (fresh max)
    next : {v w : World A} → Run max v → Step v w → Run max w

  pub record IsPool (w : World A) : Type 0 where
    pub bounded : w.pool.running ≤ w.pool.max
    pub staffed : w.executing ≤ w.pool.running
    -- Either every worker allowed runs, or a free worker is there for every task that waits.
    pub busy : (w.pool.running ≡ w.pool.max) ⊎ (length w.pool.queue + w.executing ≤ w.pool.running)
    pub in_order : w.submitted ≡ w.started ++ w.pool.queue
    pub counted : length w.started ≡ w.executing + w.completed
    pub positive : 0 < w.pool.max

  submit-queue : (task : A) (p : Pool A) → (submit task p).0.queue ≡ p.queue ++ task ∷ []
  unfolding submit
  submit-queue task p = ground arith

  submit-max : (task : A) (p : Pool A) → (submit task p).0.max ≡ p.max
  unfolding submit
  submit-max task p = ground arith

  submit-running :
      (task : A) (p : Pool A)
      → p.running ≤ p.max
      → ((p.running ≡ p.max) × ((submit task p).0.running ≡ p.running))
        ⊎ ((p.running < p.max) × ((submit task p).0.running ≡ suc p.running))
  unfolding submit
  submit-running task p h = elim (Bool-cases (leb p.max p.running)) [
    | inl k ↦ inl (ground arith, rw k refl)
    | inr k ↦ inr (ground arith, rw k refl)
  ]

  submit-IsPool :
      (task : A) (w : World A)
      → IsPool w
      → IsPool (record w { pool = (submit task w.pool).0; submitted = w.submitted ++ task ∷ [] })
  submit-IsPool task w v =
      let m = submit-max task w.pool in
      let q = submit-queue task w.pool in
      let l : length (submit task w.pool).0.queue ≡ suc (length w.pool.queue) =
        ap length q ∙ (length-append w.pool.queue (task ∷ []) ∙ omega arith) in
      let ord : w.submitted ++ task ∷ [] ≡ w.started ++ (submit task w.pool).0.queue =
        rw (q, v.in_order) (append_assoc w.started w.pool.queue (task ∷ [])) in
      elim (submit-running task w.pool v.bounded) [
        | inl (e, f) ↦ record {
          bounded = omega (arith, e, f, m);
          staffed = omega (arith, f, v.staffed);
          busy = inl (omega (arith, e, f, m));
          in_order = ord;
          counted = v.counted;
          positive = omega (arith, m, v.positive);
        }
        | inr (e, f) ↦ record {
          bounded = omega (arith, e, f, m);
          staffed = omega (arith, f, v.staffed);
          busy = elim v.busy [
            | inl k ↦ inl (omega (arith, e, k))
            | inr k ↦ inr (omega (arith, f, l, k))
          ];
          in_order = ord;
          counted = v.counted;
          positive = omega (arith, m, v.positive);
        }
      ]

  worked-IsPool :
      (w : World A) (q : List A)
      → w.pool.queue ≡ q
      → w.executing < w.pool.running
      → IsPool w
      → IsPool (worked w (next_task w.pool q))
  worked-IsPool w [] e h v = record {
    bounded = omega (arith, v.bounded);
    staffed = omega (arith, h);
    busy = inr (rw e (omega (arith, h)));
    in_order = v.in_order;
    counted = v.counted;
    positive = v.positive;
  }
  worked-IsPool w (task ∷ q) e h v = record {
    bounded = v.bounded;
    staffed = omega (arith, h);
    busy = elim v.busy [
      | inl k ↦ inl k
      | inr k ↦ inr (
          let k' : length (task ∷ q) + w.executing ≤ w.pool.running = rw e at k in
          omega (arith, k'))
    ];
    in_order =
        v.in_order ∙ (ap (λ x. w.started ++ x) e ∙ sym (append_assoc w.started (task ∷ []) q));
    counted = omega (arith, length-append w.started (task ∷ []), v.counted);
    positive = v.positive;
  }

  completed-IsPool :
      (w : World A) (n : ℕ)
      → w.executing ≡ suc n
      → IsPool w
      → IsPool (record w { executing = n; completed = suc w.completed })
  completed-IsPool w n e v = record {
    bounded = v.bounded;
    staffed = omega (arith, e, v.staffed);
    busy = elim v.busy [ inl k ↦ inl k | inr k ↦ inr (omega (arith, e, k)) ];
    in_order = v.in_order;
    counted = omega (arith, e, v.counted);
    positive = v.positive;
  }

  fresh-IsPool : (max : ℕ) → IsPool (fresh max)
  unfolding new_pool
  fresh-IsPool max = record {
    bounded = omega arith;
    staffed = omega arith;
    busy = inr (omega arith);
    in_order = refl;
    counted = refl;
    positive = ground arith;
  }

  Step-IsPool : (v w : World A) → Step v w → IsPool v → IsPool w
  unfolding work
  Step-IsPool v w (submitted_one task _) i = submit-IsPool task v i
  Step-IsPool v w (worked_one _ h) i = worked-IsPool v v.pool.queue refl h i
  Step-IsPool v w (completed_one _ n e) i = completed-IsPool v n e i

  -- In every history of a pool at most the maximum of workers run, tasks start in the order in which
  -- they were submitted, none lost and none twice, and no task waits while another worker might run.
  pub Run-IsPool : (max : ℕ) (w : World A) → Run max w → IsPool w
  Run-IsPool max w start = fresh-IsPool max
  Run-IsPool max w (next r s) = Step-IsPool _ w s (Run-IsPool max _ r)

  drained_queue : (p : Pool A) → is_drained p ≡ true → (p.running ≡ 0) × (p.queue ≡ [])
  unfolding is_drained
  drained_queue p h = (ground arith, empty_of p.queue (ground arith))
    where
      empty_of : (q : List A) → is_nil q ≡ true → q ≡ []
      empty_of [] e = refl
      empty_of (x ∷ xs) e = ground arith

  -- When drain returns, every task that was submitted has been started, and as many have ended.
  pub drained-completed :
      (max : ℕ) (w : World A)
      → Run max w
      → is_drained w.pool ≡ true
      → (w.started ≡ w.submitted) × (w.completed ≡ length w.submitted)
  drained-completed max w r h =
      let v = Run-IsPool max w r in
      let d = drained_queue w.pool h in
      let all : w.submitted ≡ w.started =
        v.in_order ∙ (ap (λ x. w.started ++ x) (d.1) ∙ append-nil w.started) in
      (sym all, omega (arith, v.counted, v.staffed, d.0, ap length all))

  -- A task that waits is never stranded: some worker runs.
  pub waiting-running :
      (max : ℕ) (w : World A) → Run max w → 0 < length w.pool.queue → 0 < w.pool.running
  waiting-running max w r h =
      let v = Run-IsPool max w r in
      elim v.busy [ inl k ↦ omega (arith, k, v.positive) | inr k ↦ omega (arith, k, h) ]
