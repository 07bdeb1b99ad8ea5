-- ===== src/Task/Entries.antt =====
-- The task map, the waker cache and the run queue of the executor (kernel/src/task/executor.rs), and
-- what a lookup sees after each change.
use willo_main.Prelude.{
  ℕ, ◌+◌, ◌≤◌, ◌≡◌, ◌≢◌, ◌⊎◌, refl, true, none, some, List, [], ◌∷◌, length, push, length-append,
  arith,
}
use willo_main.Task.{
  Task, find_task, remove_task, store_future, contains_id, remove_id, cache_waker, enqueue, wake,
  wake_all, queue_capacity,
}

module _ {F : Type 0} where
  pub find_task-remove_task :
      (id : ℕ) (ts : List (Task F)) → find_task id (remove_task id ts) ≡ none
  unfolding find_task remove_task
  find_task-remove_task id [] = refl
  find_task-remove_task id (t ∷ ts) = ground (arith, find_task-remove_task id ts)

  pub find_task-remove_task_other :
      (j id : ℕ) (ts : List (Task F)) → j ≢ id → find_task j (remove_task id ts) ≡ find_task j ts
  unfolding find_task remove_task
  find_task-remove_task_other j id [] h = refl
  find_task-remove_task_other j id (t ∷ ts) h =
      ground (arith, find_task-remove_task_other j id ts h)

  pub find_task-store_future :
      (id : ℕ) (f g : F) (ts : List (Task F))
      → find_task id ts ≡ some f
      → find_task id (store_future id g ts) ≡ some g
  unfolding find_task store_future
  find_task-store_future id f g [] h = cc
  find_task-store_future id f g (t ∷ ts) h = ground (arith, find_task-store_future id f g ts)

  pub find_task-store_future_other :
      (j id : ℕ) (g : F) (ts : List (Task F))
      → j ≢ id
      → find_task j (store_future id g ts) ≡ find_task j ts
  unfolding find_task store_future
  find_task-store_future_other j id g [] h = refl
  find_task-store_future_other j id g (t ∷ ts) h =
      ground (arith, find_task-store_future_other j id g ts h)

  pub find_task-push :
      (j : ℕ) (ts : List (Task F)) (t : Task F)
      → j ≢ t.id
      → find_task j (push ts t) ≡ find_task j ts
  unfolding find_task
  find_task-push j [] t h = ground arith
  find_task-push j (u ∷ ts) t h = ground (arith, find_task-push j ts t h)

  pub find_task-push_same :
      (ts : List (Task F)) (t : Task F)
      → find_task t.id ts ≡ none
      → find_task t.id (push ts t) ≡ some t.future
  unfolding find_task
  find_task-push_same [] t h = ground arith
  find_task-push_same (u ∷ ts) t h = ground (arith, find_task-push_same ts t)

pub contains_id-remove_id :
    (j id : ℕ) (js : List ℕ)
    → contains_id j (remove_id id js) ≡ true
    → (j ≢ id) × (contains_id j js ≡ true)
unfolding contains_id remove_id
contains_id-remove_id j id [] h = cc
contains_id-remove_id j id (k ∷ js) h = ground (arith, contains_id-remove_id j id js)

pub contains_id-push :
    (j id : ℕ) (js : List ℕ)
    → contains_id j (push js id) ≡ true
    → (j ≡ id) ⊎ (contains_id j js ≡ true)
unfolding contains_id
contains_id-push j id [] h = ground arith
contains_id-push j id (k ∷ js) h = ground (arith, contains_id-push j id js)

pub contains_id-cache_waker :
    (j id : ℕ) (js : List ℕ)
    → contains_id j (cache_waker id js) ≡ true
    → (j ≡ id) ⊎ (contains_id j js ≡ true)
unfolding cache_waker
contains_id-cache_waker j id js h = ground (arith, contains_id-push j id js)

pub length-wake :
    (id : ℕ) (queue : List ℕ)
    → length queue ≤ queue_capacity
    → (length (wake id queue) ≤ queue_capacity) × (length (wake id queue) ≤ length queue + 1)
unfolding wake enqueue
length-wake id queue h = ground (arith, length-append queue (id ∷ []))

pub length-wake_all :
    (ids queue : List ℕ)
    → length queue ≤ queue_capacity
    → (length (wake_all ids queue) ≤ queue_capacity)
      × (length (wake_all ids queue) ≤ length queue + length ids)
unfolding wake_all
length-wake_all [] queue h = (h, omega arith)
length-wake_all (id ∷ ids) queue h =
    let (room, one) = length-wake id queue h in
    let (all, more) = length-wake_all ids (wake id queue) room in (all, omega arith)
