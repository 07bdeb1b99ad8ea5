-- ===== src/Task.antt =====
-- kernel/src/task/mod.rs and kernel/src/task/executor.rs: tasks and the waker-aware executor. What a
-- future does when it is polled is not known to the executor: a future is a state, and `poll_future`
-- gives, for the task's id and the future's state, whether it is ready, its next state, and the ids
-- that are woken while it runs (through any waker, also from an interrupt handler).
pub mod Entries
pub mod Rounds
pub mod Idle
use willo_main.Prelude.{
  ℕ, zero, suc, ◌+◌, ◌%◌, ◌^◌, ◌≤◌, ◌<◌, Bool, true, false, Option, none, some, List, [], ◌∷◌, ◌++◌,
  ltb, ◌==◌, if◌then◌else◌, length, push,
}

-- `TaskId::new`: the id, and the counter behind it. The counter has 64 bits.
unfoldable pub next_id : ℕ → ℕ × ℕ
next_id counter = (counter, (counter + 1) % 2 ^ 64)

-- `ArrayQueue::new(100)`
abbrev pub queue_capacity : ℕ
queue_capacity = 100

-- `ArrayQueue::push`: `none` where the queue is full.
unfoldable pub enqueue : ℕ → List ℕ → Option (List ℕ)
enqueue id queue = if ltb (length queue) queue_capacity then some (push queue id) else none

module _ (F : Type 0) where
  pub record Task : Type 0 where
    pub id : ℕ
    pub future : F

  -- `BTreeMap<TaskId, Task>` by its entries, and the keys of the waker cache.
  pub record Executor : Type 0 where
    pub tasks : List Task
    pub task_queue : List ℕ
    pub waker_cache : List ℕ

-- What one poll does.
pub record Polled (F : Type 0) : Type 0 where
  pub ready : Bool
  pub future : F
  pub woken : List ℕ

module _ {F : Type 0} where
  unfoldable pub new : Executor F
  new = record { tasks = []; task_queue = []; waker_cache = [] }

  unfoldable pub find_task : ℕ → List (Task F) → Option F
  find_task id [] = none
  find_task id (t ∷ ts) = if t.id == id then some t.future else find_task id ts

  unfoldable pub remove_task : ℕ → List (Task F) → List (Task F)
  remove_task id [] = []
  remove_task id (t ∷ ts) = let rest = remove_task id ts in if t.id == id then rest else t ∷ rest

  -- The future's state after a poll that is pending, in place.
  unfoldable pub store_future : ℕ → F → List (Task F) → List (Task F)
  store_future id f [] = []
  store_future id f (t ∷ ts) =
      let rest = store_future id f ts in
      if t.id == id then record t { future = f } ∷ ts else t ∷ rest

  -- `none` is one of the two panics.
  unfoldable pub spawn : Task F → Executor F → Option (Executor F)
  unfolding find_task enqueue
  spawn task e = elim (find_task task.id e.tasks) [
    | some f ↦ none
    | none ↦ elim (enqueue task.id e.task_queue) [
      | none ↦ none
      | some queue ↦ some (record e { tasks = push e.tasks task; task_queue = queue })
    ]
  ]

unfoldable pub contains_id : ℕ → List ℕ → Bool
contains_id id [] = false
contains_id id (j ∷ js) = if j == id then true else contains_id id js

unfoldable pub remove_id : ℕ → List ℕ → List ℕ
remove_id id [] = []
remove_id id (j ∷ js) = let rest = remove_id id js in if j == id then rest else j ∷ rest

-- `wake_task`: the push is dropped where the queue is full.
unfoldable pub wake : ℕ → List ℕ → List ℕ
unfolding enqueue
wake id queue = elim (enqueue id queue) [ none ↦ queue | some q ↦ q ]

unfoldable pub wake_all : List ℕ → List ℕ → List ℕ
unfolding wake
wake_all [] queue = queue
wake_all (id ∷ ids) queue = wake_all ids (wake id queue)

-- `entry(task_id).or_insert_with(..)`
unfoldable pub cache_waker : ℕ → List ℕ → List ℕ
unfolding contains_id
cache_waker id cache = if contains_id id cache then cache else push cache id

module _ {F : Type 0} where
  unfoldable pub after_poll : ℕ → Polled F → Executor F → Executor F
  unfolding remove_task store_future remove_id wake_all cache_waker
  after_poll id p e =
      let cache = cache_waker id e.waker_cache in
      let queue = wake_all p.woken e.task_queue in
      if p.ready
      then record {
        tasks = remove_task id e.tasks;
        task_queue = queue;
        waker_cache = remove_id id cache;
      }
      else record {
        tasks = store_future id p.future e.tasks;
        task_queue = queue;
        waker_cache = cache;
      }

module _ {F : Type 0} (poll_future : ℕ → F → Polled F) where
  -- One round of the loop of `run_ready_tasks`, for the id that was popped.
  unfoldable pub run_one : ℕ → Executor F → Executor F
  unfolding find_task after_poll
  run_one id e = elim (find_task id e.tasks) [
    | none ↦ e
    | some f ↦ after_poll id (poll_future id f) e
  ]

  -- One round of the loop: the pop and the work for the id.
  unfoldable pub round : Executor F → Executor F
  unfolding run_one
  round e = elim e.task_queue [ [] ↦ e | id ∷ rest ↦ run_one id (record e { task_queue = rest }) ]

  -- `run_ready_tasks` on fuel: the rounds left. The loop ends when the queue is empty.
  unfoldable pub run_ready_tasks : ℕ → Executor F → Executor F
  unfolding round
  run_ready_tasks zero e = e
  run_ready_tasks (suc fuel) e = run_ready_tasks fuel (round e)

-- `sleep_if_idle`, with interrupts off: the CPU sleeps only where nothing waits in the queue.
unfoldable pub sleeps : List ℕ → Bool
sleeps [] = true
sleeps (id ∷ queue) = false
