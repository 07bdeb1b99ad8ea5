-- ===== src/Tests/Task.antt =====
-- The executor (kernel/src/task/executor.rs) on tasks that count down and wake themselves.
use willo_main.Prelude.{
  ℕ, zero, suc, ◌<◌, ◌≡◌, refl, true, false, none, some, [], ◌∷◌, arith, length, push,
}
use willo_main.Task.{
  Task, Executor, Polled, spawn, find_task, contains_id, round, run_ready_tasks, sleeps,
  queue_capacity,
}
use willo_main.Task.Rounds.{IsWellFormed, spawn_lem, round-IsWellFormed}
use willo_main.Task.Idle.{IsBounded, wakes_left, run_ready_tasks-sleeps}

count_down : ℕ → ℕ → Polled ℕ
count_down id zero = record { ready = true; future = 0; woken = [] }
count_down id (suc n) = record { ready = false; future = n; woken = id ∷ [] }

left : ℕ → ℕ → ℕ
left id n = n

count_down-IsBounded : IsBounded count_down left
unfolding count_down left
count_down-IsBounded id zero = omega arith
count_down-IsBounded id (suc n) = omega arith

abbrev first : Task ℕ
first = record { id = 0; future = 2 }

abbrev second : Task ℕ
second = record { id = 1; future = 0 }

abbrev one : Executor ℕ
one = record { tasks = first ∷ []; task_queue = 0 ∷ []; waker_cache = [] }

abbrev two : Executor ℕ
two = record { tasks = first ∷ second ∷ []; task_queue = 0 ∷ 1 ∷ []; waker_cache = [] }

one-IsWellFormed : IsWellFormed one
unfolding contains_id
one-IsWellFormed = record { cached = λ j c. cc; room = omega arith }

two-IsWellFormed : IsWellFormed two
unfolding contains_id
two-IsWellFormed = record { cached = λ j c. cc; room = omega arith }

spawn_run : spawn second one ≡ some two
unfolding spawn find_task
spawn_run = refl

spawn_lem_example :
    (find_task 1 one.tasks ≡ none)
    × (length one.task_queue < queue_capacity)
    × (two ≡ record one { tasks = push one.tasks second; task_queue = push one.task_queue 1 })
spawn_lem_example = spawn_lem second one two spawn_run

round-IsWellFormed_example : IsWellFormed (round count_down two)
round-IsWellFormed_example = round-IsWellFormed count_down two two-IsWellFormed

run_ready_tasks-sleeps_example : sleeps (run_ready_tasks count_down 4 two).task_queue ≡ true
unfolding wakes_left left
run_ready_tasks-sleeps_example =
    run_ready_tasks-sleeps count_down left 4 two count_down-IsBounded two-IsWellFormed (omega arith)
