-- ===== src/SimpleExecutor.antt =====
-- kernel/src/task/simple_executor.rs: the polling executor. A future is a state, and `poll_future`
-- gives whether a poll is ready, and the future's state after it; the waker of this executor is
-- without effect.
pub mod Passes
use willo_main.Prelude.{ℕ, zero, suc, Bool, List, [], ◌∷◌, if◌then◌else◌, push}
use willo_main.Task.{Task}

module _ (F : Type 0) where
  pub record SimpleExecutor : Type 0 where
    pub task_queue : List (Task F)

module _ {F : Type 0} where
  unfoldable pub new : SimpleExecutor F
  new = record { task_queue = [] }

  unfoldable pub spawn : Task F → SimpleExecutor F → SimpleExecutor F
  spawn task e = record { task_queue = push e.task_queue task }

module _ {F : Type 0} (poll_future : F → Bool × F) where
  -- The body of the loop of `run`, for the task that was popped.
  unfoldable pub poll_task : Task F → List (Task F) → List (Task F)
  poll_task task rest =
      let (ready, next) = poll_future task.future in
      if ready then rest else push rest (record task { future = next })

  unfoldable pub round : List (Task F) → List (Task F)
  unfolding poll_task
  round [] = []
  round (task ∷ rest) = poll_task task rest

  -- `run` on fuel: the rounds left. The loop ends when the queue is empty.
  unfoldable pub run : ℕ → SimpleExecutor F → SimpleExecutor F
  unfolding round
  run zero e = e
  run (suc fuel) e = run fuel (record { task_queue = round e.task_queue })
