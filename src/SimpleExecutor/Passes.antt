-- ===== src/SimpleExecutor/Passes.antt =====
-- The rounds of `run` (kernel/src/task/simple_executor.rs).
use willo_main.Prelude.{
  ℕ, zero, suc, ◌+◌, ◌≤◌, ◌<◌, ◌≡◌, refl, sym, ◌∙◌, ap, Bool, true, false, List, [], ◌∷◌, ◌++◌,
  if◌then◌else◌, length, push, append_assoc, append-nil, Bool-cases, inl, inr, arith,
}
use willo_main.Task.{Task}
use willo_main.SimpleExecutor.{SimpleExecutor, run, round, poll_task}

module _ {F : Type 0} (poll_future : F → Bool × F) where
  -- The tasks of a queue that one poll each leaves pending, in their order.
  abbrev pub pending_of : List (Task F) → List (Task F)
  pending_of [] = []
  pending_of (task ∷ rest) =
      let (ready, next) = poll_future task.future in
      if ready then pending_of rest else record task { future = next } ∷ pending_of rest

  poll_task_ready :
      (task : Task F) (rest : List (Task F))
      → (poll_future task.future).0 ≡ true
      → poll_task poll_future task rest ≡ rest
  unfolding poll_task
  poll_task_ready task rest e = rw e refl

  poll_task_pending :
      (task : Task F) (rest : List (Task F))
      → (poll_future task.future).0 ≡ false
      → poll_task poll_future task rest
        ≡ push rest (record task { future = (poll_future task.future).1 })
  unfolding poll_task
  poll_task_pending task rest e = rw e refl

  pass_over :
      (front back : List (Task F))
      → run poll_future (length front) (record { task_queue = front ++ back })
        ≡ record { task_queue = back ++ pending_of front }
  unfolding run round
  pass_over [] back = ap (λ q. record { task_queue = q }) (sym (append-nil back))
  pass_over (task ∷ front) back =
      let next =
        λ (q : List (Task F)). run poll_future (length front) (record { task_queue = q }) in
      elim (Bool-cases (poll_future task.future).0) [
        | inl e ↦ ap next (poll_task_ready task (front ++ back) e) ∙ rw e (pass_over front back)
        | inr e ↦
            let moved = record task { future = (poll_future task.future).1 } in
            ap next
              (poll_task_pending task (front ++ back) e ∙ append_assoc front back (moved ∷ []))
            ∙ pass_over front (push back moved)
            ∙ rw e (ap queue_of (append_assoc back (moved ∷ []) (pending_of front)))
      ]
    where
      queue_of : List (Task F) → SimpleExecutor F
      queue_of q = record { task_queue = q }

  -- As many rounds of run as tasks are queued poll every task once: what is left are the tasks
  -- that are pending, in their order and with their new state.
  pub run-length :
      (queue : List (Task F))
      → run poll_future (length queue) (record { task_queue = queue })
        ≡ record { task_queue = pending_of queue }
  run-length queue =
      ap (λ q. run poll_future (length queue) (record { task_queue = q })) (sym (append-nil queue))
      ∙ pass_over queue []

  module _ (left : F → ℕ) where
    abbrev pub rounds_left : List (Task F) → ℕ
    rounds_left [] = 0
    rounds_left (task ∷ rest) = suc (left task.future) + rounds_left rest

    rounds_left-push :
        (queue : List (Task F)) (task : Task F)
        → rounds_left (push queue task) ≡ rounds_left queue + suc (left task.future)
    rounds_left-push [] task = omega arith
    rounds_left-push (t ∷ queue) task = omega (arith, rounds_left-push queue task)

    -- If a pending poll lowers the measure of its future, run empties the queue within as many
    -- rounds as the tasks queued and their measures sum up to.
    pub run-ends :
        ((f : F) → (poll_future f).0 ≡ false → left (poll_future f).1 < left f)
        → (fuel : ℕ) (queue : List (Task F)) → rounds_left queue ≤ fuel
        → (run poll_future fuel (record { task_queue = queue })).task_queue ≡ []
    unfolding run round
    run-ends falls zero [] h = refl
    run-ends falls zero (task ∷ queue) h = absurd (omega (arith, h))
    run-ends falls (suc fuel) [] h = run-ends falls fuel [] (omega arith)
    run-ends falls (suc fuel) (task ∷ queue) h =
        let next =
          λ (q : List (Task F)). (run poll_future fuel (record { task_queue = q })).task_queue in
        elim (Bool-cases (poll_future task.future).0) [
          | inl e ↦
              ap next (poll_task_ready task queue e) ∙ run-ends falls fuel queue (omega (arith, h))
          | inr e ↦
              let moved = record task { future = (poll_future task.future).1 } in
              let less = falls task.future e in
              ap next (poll_task_pending task queue e)
              ∙ run-ends falls fuel (push queue moved)
                  (omega (arith, h, less, rounds_left-push queue moved))
        ]
