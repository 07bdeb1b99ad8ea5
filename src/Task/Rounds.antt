-- ===== src/Task/Rounds.antt =====
-- One round of `run_ready_tasks`, `spawn`, and the well-formed executors
-- (kernel/src/task/executor.rs).
use willo_main.Prelude.{
  ℕ, zero, suc, ◌≤◌, ◌<◌, ◌↔◌, ◌≡◌, ◌≢◌, ◌⊎◌, inl, inr, refl, sym, subst, ◌∙◌, ap, true, false,
  none, some, [], ◌∷◌, if◌then◌else◌, length, push, length-append, arith, Bool-cases, Option-cases,
  List-cases, ◌==◌, ==_iff,
}
use willo_main.Task.{
  Task, Executor, Polled, find_task, contains_id, cache_waker, enqueue, queue_capacity, spawn,
  after_poll, run_one, round, run_ready_tasks,
}
use willo_main.Task.Entries.{
  find_task-remove_task, find_task-remove_task_other, find_task-store_future,
  find_task-store_future_other, find_task-push, contains_id-remove_id, contains_id-cache_waker,
  length-wake_all,
}

module _ {F : Type 0} where
  -- A cached waker belongs to a task that is still there, and the queue is within its capacity.
  pub record IsWellFormed (e : Executor F) : Type 0 where
    pub cached : (j : ℕ) → contains_id j e.waker_cache ≡ true → find_task j e.tasks ≢ none
    pub room : length e.task_queue ≤ queue_capacity

  -- spawn panics exactly if a task of the same id is there or the queue holds 100 ids.
  pub spawn-none_iff :
      (t : Task F) (e : Executor F)
      → (spawn t e ≡ none)
        ↔ ((find_task t.id e.tasks ≢ none) ⊎ (queue_capacity ≤ length e.task_queue))
  unfolding spawn enqueue
  spawn-none_iff t e = ground arith

  pub spawn_lem :
      (t : Task F) (e e' : Executor F)
      → spawn t e ≡ some e'
      → (find_task t.id e.tasks ≡ none)
        × (length e.task_queue < queue_capacity)
        × (e' ≡ record e { tasks = push e.tasks t; task_queue = push e.task_queue t.id })
  unfolding spawn enqueue
  spawn_lem t e e' h = ground arith

  -- A spawn that does not panic keeps the executor well-formed.
  pub spawn-IsWellFormed :
      (t : Task F) (e e' : Executor F) → IsWellFormed e → spawn t e ≡ some e' → IsWellFormed e'
  spawn-IsWellFormed t e e' wf h =
      let (free, room, eq) = spawn_lem t e e' h in
      subst IsWellFormed (sym eq) (record {
        cached = λ j c n. elim (Bool-cases (j == t.id)) [
          | inl same ↦ wf.cached j c (ap (λ k. find_task k e.tasks) ((==_iff j t.id).0 same) ∙ free)
          | inr other ↦ wf.cached j c (sym (find_task-push j e.tasks t (ground (arith, other))) ∙ n)
        ];
        room = omega (arith, length-append e.task_queue (t.id ∷ []), room);
      })

  ready-IsWellFormed :
      (id : ℕ) (p : Polled F) (e : Executor F)
      → IsWellFormed e
      → p.ready ≡ true
      → IsWellFormed (after_poll id p e)
  unfolding after_poll
  ready-IsWellFormed id p e wf r = rw r (record {
    cached = λ j c n.
        (let (other, c') = contains_id-remove_id j id (cache_waker id e.waker_cache) c in
          elim (contains_id-cache_waker j id e.waker_cache c') [
            | inl same ↦ other same
            | inr old ↦ wf.cached j old (sym (find_task-remove_task_other j id e.tasks other) ∙ n)
          ]);
    room = (length-wake_all p.woken e.task_queue wf.room).0;
  })

  pending-IsWellFormed :
      (id : ℕ) (p : Polled F) (f : F) (e : Executor F)
      → IsWellFormed e
      → find_task id e.tasks ≡ some f
      → p.ready ≡ false
      → IsWellFormed (after_poll id p e)
  unfolding after_poll
  pending-IsWellFormed id p f e wf h r = rw r (record {
    cached = λ j c n. elim (Bool-cases (j == id)) [
      | inl same ↦ absurd (
          let e1 = find_task-store_future id f p.future e.tasks h in
          let e2 = (==_iff j id).0 same in ground (arith, n, e1, e2))
      | inr other ↦ elim (contains_id-cache_waker j id e.waker_cache c) [
        | inl same ↦ absurd (ground (arith, other, same))
        | inr old ↦
            wf.cached j old
              (sym (find_task-store_future_other j id p.future e.tasks (ground (arith, other))) ∙ n)
      ]
    ];
    room = (length-wake_all p.woken e.task_queue wf.room).0;
  })

module _ {F : Type 0} (poll_future : ℕ → F → Polled F) where
  run_one-IsWellFormed :
      (id : ℕ) (e : Executor F) → IsWellFormed e → IsWellFormed (run_one poll_future id e)
  unfolding run_one
  run_one-IsWellFormed id e wf = elim (Option-cases (find_task id e.tasks)) [
    | inl n ↦ rw (run_one, n) wf
    | inr (f, h) ↦
        rw (run_one, h)
          (elim (Bool-cases (poll_future id f).ready) [
            | inl r ↦ ready-IsWellFormed id (poll_future id f) e wf r
            | inr r ↦ pending-IsWellFormed id (poll_future id f) f e wf h r
          ])
  ]

  -- A round of run_ready_tasks keeps the executor well-formed: every cached waker belongs to a
  -- task that is still there, and the queue holds at most 100 ids.
  pub round-IsWellFormed : (e : Executor F) → IsWellFormed e → IsWellFormed (round poll_future e)
  unfolding round
  round-IsWellFormed e wf = elim (List-cases e.task_queue) [
    | inl n ↦ rw (round, n) wf
    | inr (id, rest, h) ↦
        rw (round, h)
          (run_one-IsWellFormed id (record e { task_queue = rest })
            (record {
              cached = wf.cached;
              room = (let e1 = ap length h in omega (arith, wf.room, e1));
            }))
  ]

  pub run_ready_tasks-IsWellFormed :
      (fuel : ℕ) (e : Executor F)
      → IsWellFormed e
      → IsWellFormed (run_ready_tasks poll_future fuel e)
  unfolding run_ready_tasks
  run_ready_tasks-IsWellFormed zero e wf = wf
  run_ready_tasks-IsWellFormed (suc fuel) e wf =
      run_ready_tasks-IsWellFormed fuel (round poll_future e) (round-IsWellFormed e wf)

  -- After the round for the id of a task, the task is gone if its poll was ready, and otherwise
  -- has the state that the poll left.
  pub find_task-run_one :
      (id : ℕ) (f : F) (e : Executor F)
      → find_task id e.tasks ≡ some f
      → find_task id (run_one poll_future id e).tasks
        ≡ (if (poll_future id f).ready then none else some (poll_future id f).future)
  unfolding run_one after_poll
  find_task-run_one id f e h = ground (
    arith,
    h,
    find_task-remove_task id e.tasks,
    find_task-store_future id f (poll_future id f).future e.tasks h,
  )

  -- The round for one id leaves the tasks of all other ids as they were.
  pub find_task-run_one_other :
      (j id : ℕ) (e : Executor F)
      → j ≢ id
      → find_task j (run_one poll_future id e).tasks ≡ find_task j e.tasks
  unfolding run_one after_poll
  find_task-run_one_other j id e h = elim (Option-cases (find_task id e.tasks)) [
    | inl n ↦ rw (run_one, n) refl
    | inr (f, g) ↦
        rw (run_one, g)
          (elim (Bool-cases (poll_future id f).ready) [
            | inl r ↦ rw r (find_task-remove_task_other j id e.tasks h)
            | inr r ↦ rw r (find_task-store_future_other j id (poll_future id f).future e.tasks h)
          ])
  ]
