-- ===== src/Task/Idle.antt =====
-- The end of the loop of `run_ready_tasks` and `sleep_if_idle` (kernel/src/task/executor.rs).
use willo_main.Prelude.{
  ℕ, zero, suc, ◌+◌, ◌≤◌, ◌<◌, ◌⊎◌, ◌≡◌, ap, true, some, List, [], ◌∷◌, if◌then◌else◌, length,
  arith, Bool-cases, Option-cases, List-cases, inl, inr,
}
use willo_main.Task.{
  Task, Executor, Polled, find_task, remove_task, store_future, run_one, round, run_ready_tasks,
  sleeps,
}
use willo_main.Task.Entries.{length-wake_all}
use willo_main.Task.Rounds.{IsWellFormed, round-IsWellFormed}

module _ {F : Type 0} (poll_future : ℕ → F → Polled F) (wakes : ℕ → F → ℕ) where
  -- The number of wakes that the tasks have left.
  unfoldable pub wakes_left : List (Task F) → ℕ
  wakes_left [] = 0
  wakes_left (t ∷ ts) = wakes t.id t.future + wakes_left ts

  -- A poll wakes no more than the future had left, and leaves the rest to its next state.
  abbrev pub IsBounded : Type 0
  IsBounded =
      (id : ℕ) (f : F)
      → length (poll_future id f).woken
          + (if (poll_future id f).ready then 0 else wakes id (poll_future id f).future)
        ≤ wakes id f

  wakes_left-remove_all :
      (id : ℕ) (ts : List (Task F)) → wakes_left (remove_task id ts) ≤ wakes_left ts
  unfolding wakes_left remove_task
  wakes_left-remove_all id [] = omega arith
  wakes_left-remove_all id (t ∷ ts) = ground (arith, wakes_left-remove_all id ts)

  wakes_left-remove_task :
      (id : ℕ) (f : F) (ts : List (Task F))
      → find_task id ts ≡ some f
      → wakes_left (remove_task id ts) + wakes id f ≤ wakes_left ts
  unfolding wakes_left remove_task find_task
  wakes_left-remove_task id f [] h = cc
  wakes_left-remove_task id f (t ∷ ts) h =
      ground (arith, wakes_left-remove_all id ts, wakes_left-remove_task id f ts)

  wakes_left-store_future :
      (id : ℕ) (f g : F) (ts : List (Task F))
      → find_task id ts ≡ some f
      → wakes_left (store_future id g ts) + wakes id f ≡ wakes_left ts + wakes id g
  unfolding wakes_left store_future find_task
  wakes_left-store_future id f g [] h = cc
  wakes_left-store_future id f g (t ∷ ts) h = ground (arith, wakes_left-store_future id f g ts)

  -- What bounds the rounds: those in the queue, and those that are still to come.
  potential : Executor F → ℕ
  potential e = length e.task_queue + wakes_left e.tasks

  potential-run_one :
      (id : ℕ) (e : Executor F)
      → IsBounded
      → IsWellFormed e
      → potential (run_one poll_future id e) ≤ potential e
  unfolding potential run_one
  potential-run_one id e b wf = elim (Option-cases (find_task id e.tasks)) [
    | inl n ↦ rw (run_one, n) (omega arith)
    | inr (f, h) ↦
        rw (run_one, h)
          (elim (Bool-cases (poll_future id f).ready) [
            | inl r ↦ ground (
              arith,
              b id f,
              r,
              (length-wake_all (poll_future id f).woken e.task_queue wf.room).1,
              wakes_left-remove_task id f e.tasks h,
            )
            | inr r ↦ ground (
              arith,
              b id f,
              r,
              (length-wake_all (poll_future id f).woken e.task_queue wf.room).1,
              wakes_left-store_future id f (poll_future id f).future e.tasks h,
            )
          ])
  ]

  round-potential :
      (e : Executor F)
      → IsBounded
      → IsWellFormed e
      → (e.task_queue ≡ []) ⊎ (potential (round poll_future e) < potential e)
  unfolding round potential
  round-potential e b wf = elim (List-cases e.task_queue) [
    | inl n ↦ inl n
    | inr (id, rest, h) ↦ inr (
        rw (round, h)
          (let room : length rest ≤ 100 = (let e1 = ap length h in omega (arith, wf.room, e1)) in
            let less =
              potential-run_one id (record e { task_queue = rest }) b
                (record { cached = wf.cached; room = room }) in
            let e1 = ap length h in omega (arith, less)))
  ]

  run_ready_tasks_idle :
      (fuel : ℕ) (e : Executor F)
      → e.task_queue ≡ []
      → (run_ready_tasks poll_future fuel e).task_queue ≡ []
  unfolding run_ready_tasks round
  run_ready_tasks_idle zero e h = h
  run_ready_tasks_idle (suc fuel) e h =
      run_ready_tasks_idle fuel (round poll_future e) (rw (round, h) h)

  queue_empty :
      (fuel : ℕ) (e : Executor F)
      → IsBounded
      → IsWellFormed e
      → potential e ≤ fuel
      → (run_ready_tasks poll_future fuel e).task_queue ≡ []
  unfolding run_ready_tasks potential
  queue_empty zero e b wf h = elim (List-cases e.task_queue) [
    | inl n ↦ n
    | inr (id, rest, q) ↦ absurd (let e1 = ap length q in omega (arith, h, e1))
  ]
  queue_empty (suc fuel) e b wf h = elim (round-potential e b wf) [
    | inl n ↦ run_ready_tasks_idle (suc fuel) e n
    | inr less ↦
        queue_empty fuel (round poll_future e) b (round-IsWellFormed poll_future e wf) (omega arith)
  ]

  -- If every poll wakes no more ids than its future had left, run_ready_tasks of a well-formed
  -- executor ends after at most as many rounds as ids are queued and wakes are left, with an empty
  -- queue, so that sleep_if_idle sleeps.
  pub run_ready_tasks-sleeps :
      (fuel : ℕ) (e : Executor F)
      → IsBounded
      → IsWellFormed e
      → length e.task_queue + wakes_left e.tasks ≤ fuel
      → sleeps (run_ready_tasks poll_future fuel e).task_queue ≡ true
  unfolding sleeps potential
  run_ready_tasks-sleeps fuel e b wf h = ap sleeps (queue_empty fuel e b wf h)
