-- ===== src/Files/Pool/Samples.antt =====
-- A pool of one worker that is given two tasks and drains.
use dankgo.Prelude.{ℕ, ◌≡◌, refl, true, [], ◌∷◌, arith, length}
use dankgo.Files.Pool.{new_pool, submit, work, is_drained}
use dankgo.Files.Pool.Run.{
  World, submitted_one, worked_one, completed_one, Run, start, next, fresh, worked, IsPool,
  Run-IsPool, drained-completed,
}

abbrev w1 : World ℕ
w1 = record (fresh {A = ℕ} 0) { pool = (submit 7 (fresh {A = ℕ} 0).pool).0; submitted = 7 ∷ [] }

abbrev w2 : World ℕ
w2 = record w1 { pool = (submit 8 w1.pool).0; submitted = 7 ∷ 8 ∷ [] }

abbrev w3 : World ℕ
w3 = worked w2 (work w2.pool)

abbrev w4 : World ℕ
w4 = record w3 { executing = 0; completed = 1 }

abbrev w5 : World ℕ
w5 = worked w4 (work w4.pool)

abbrev w6 : World ℕ
w6 = record w5 { executing = 0; completed = 2 }

abbrev w7 : World ℕ
w7 = worked w6 (work w6.pool)

run2 : Run 0 w2
run2 = next (next start (submitted_one 7 (fresh 0))) (submitted_one 8 w1)

run7 : Run 0 w7
unfolding new_pool submit work
run7 =
    next
      (next
        (next (next (next run2 (worked_one w2 (omega arith))) (completed_one w3 0 refl))
          (worked_one w4 (omega arith)))
        (completed_one w5 0 refl))
      (worked_one w6 (omega arith))

w7-drained : is_drained w7.pool ≡ true
unfolding new_pool submit work is_drained
w7-drained = refl

Run-IsPool_example : IsPool w7
Run-IsPool_example = Run-IsPool 0 w7 run7

drained-completed_example : (w7.started ≡ w7.submitted) × (w7.completed ≡ length w7.submitted)
drained-completed_example = drained-completed 0 w7 run7 w7-drained
