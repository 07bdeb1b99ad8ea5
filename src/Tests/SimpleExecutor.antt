-- ===== src/Tests/SimpleExecutor.antt =====
-- Futures that count down (kernel/src/task/simple_executor.rs).
use willo_main.Prelude.{ℕ, zero, suc, ◌≡◌, ◌<◌, Bool, true, false, List, [], ◌∷◌, arith}
use willo_main.Task.{Task}
use willo_main.SimpleExecutor.{run}
use willo_main.SimpleExecutor.Passes.{run-length, run-ends}

abbrev count_down : ℕ → Bool × ℕ
count_down zero = (true, 0)
count_down (suc n) = (false, n)

abbrev steps_left : ℕ → ℕ
steps_left n = n

abbrev tasks : List (Task ℕ)
tasks =
    record { id = 1; future = 2 }
    ∷ record { id = 2; future = 0 }
    ∷ record { id = 3; future = 1 }
    ∷ []

count_down-falls : (n : ℕ) → (count_down n).0 ≡ false → steps_left (count_down n).1 < steps_left n
count_down-falls zero h = cc
count_down-falls (suc n) h = omega arith

run-length_example :
    run count_down 3 (record { task_queue = tasks })
    ≡ record { task_queue = record { id = 1; future = 1 } ∷ record { id = 3; future = 0 } ∷ [] }
run-length_example = run-length count_down tasks

run-ends_example : (run count_down 6 (record { task_queue = tasks })).task_queue ≡ []
run-ends_example = run-ends count_down steps_left count_down-falls 6 tasks (omega arith)
