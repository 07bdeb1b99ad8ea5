-- ===== src/Keyboard.antt =====
-- kernel/src/task/keyboard.rs: the scan code queue between the keyboard interrupt and the shell's
-- task, and the keys that scroll the console. `ArrayQueue` and `AtomicWaker` are other crates': a
-- record of operations each, with the laws that their documentation gives.
pub mod Interleave
pub mod Wakeups
use willo_main.Prelude.{
  ℕ, ◌-◌, Bool, true, false, Option, none, some, List, [], ◌∷◌, ◌++◌, ◌≡◌, ltb, if◌then◌else◌,
  length, push, max,
}
use willo_main.Framebuffer.{Writer, scroll_up, scroll_down, scroll_end}

abbrev pub capacity : ℕ
capacity = 100

-- What a queue of capacity 100 holds after `push`, which fails where it is full.
abbrev pub pushed : List ℕ → ℕ → List ℕ
pushed codes code = if ltb (length codes) capacity then push codes code else codes

abbrev pub first_code : List ℕ → Option ℕ
first_code [] = none
first_code (c ∷ codes) = some c

abbrev pub rest_codes : List ℕ → List ℕ
rest_codes [] = []
rest_codes (c ∷ codes) = codes

-- `ArrayQueue<u8>`
pub record ScanQueue (Q : Type 0) : Type 0 where
  pub codes : Q → List ℕ
  pub new_queue : Q
  pub push_code : ℕ → Q → Q
  pub pop_code : Q → Option ℕ × Q
  pub codes-new_queue : codes new_queue ≡ []
  pub codes-push_code : (code : ℕ) (q : Q) → codes (push_code code q) ≡ pushed (codes q) code
  pub pop_code-first : (q : Q) → (pop_code q).0 ≡ first_code (codes q)
  pub codes-pop_code : (q : Q) → codes (pop_code q).1 ≡ rest_codes (codes q)

-- `AtomicWaker`, for wakers of type `K`: `take` gives the waker that was registered last.
pub record WakerCell (K C : Type 0) : Type 0 where
  pub held : C → Option K
  pub register : K → C → C
  pub take : C → Option K × C
  pub held-register : (waker : K) (c : C) → held (register waker c) ≡ some waker
  pub take-held : (c : C) → (take c).0 ≡ held c
  pub held-take : (c : C) → held (take c).1 ≡ none

-- `SCANCODE_QUEUE`, `WAKER`, and the wakers that were woken so far, the last one first.
pub record Keyboard (K Q C : Type 0) : Type 0 where
  pub queue : Option Q
  pub waker : C
  pub woken : List K

pub data Poll : Type 0 where
  ready : ℕ → Poll
  pending : Poll

abbrev pub wake_up : {K : Type 0} → Option K → List K → List K
wake_up none woken = woken
wake_up (some k) woken = k ∷ woken

module _ {K Q C : Type 0} (queues : ScanQueue Q) (cells : WakerCell K C) where
  -- `ScancodeStream::new`; `none` is the panic of a second call.
  unfoldable pub new_stream : Keyboard K Q C → Option (Keyboard K Q C)
  new_stream k = elim k.queue [
    | none ↦ some (record k { queue = some queues.new_queue })
    | some q ↦ none
  ]

  -- `WAKER.wake()`
  unfoldable pub wake : Keyboard K Q C → Keyboard K Q C
  wake k =
      let (waker, cell) = cells.take k.waker in
      record k { waker = cell; woken = wake_up waker k.woken }

  -- Called from the keyboard interrupt.
  unfoldable pub add_scancode : ℕ → Keyboard K Q C → Keyboard K Q C
  unfolding wake
  add_scancode code k = elim k.queue [
    | none ↦ k
    | some q ↦ wake (record k { queue = some (queues.push_code code q) })
  ]

  -- One `queue.pop()` of `poll_next`.
  unfoldable pub pop_step : Q → Keyboard K Q C → Option ℕ × Keyboard K Q C
  pop_step q k = let (code, q') = queues.pop_code q in (code, record k { queue = some q' })

  -- `WAKER.register(cx.waker())`
  unfoldable pub register_step : K → Keyboard K Q C → Keyboard K Q C
  register_step waker k = record k { waker = cells.register waker k.waker }

  -- `WAKER.take()`
  unfoldable pub take_step : Keyboard K Q C → Keyboard K Q C
  take_step k = record k { waker = (cells.take k.waker).1 }

  -- The second half of `poll_next`: the pop after the registration.
  unfoldable pub after_register : Keyboard K Q C → Option (Poll × Keyboard K Q C)
  unfolding pop_step take_step
  after_register k = elim k.queue [
    | none ↦ none
    | some q ↦
        (let (code, k') = pop_step q k in
          elim code [ some c ↦ some (ready c, take_step k') | none ↦ some (pending, k') ])
  ]

  -- `poll_next` where no interrupt comes between its steps; `none` is its panic.
  unfoldable pub poll_next : K → Keyboard K Q C → Option (Poll × Keyboard K Q C)
  unfolding pop_step register_step after_register
  poll_next waker k = elim k.queue [
    | none ↦ none
    | some q ↦
        (let (code, k') = pop_step q k in
          elim code [
            | some c ↦ some (ready c, k')
            | none ↦ after_register (register_step waker k')
          ])
  ]

-- `KeyCode`, as far as the code tells the keys apart.
pub data RawKey : Type 0 where
  page_up page_down end_key other_key : RawKey

module _ (glyph_width : ℕ) where
  -- `route_rawkey`, where there is a framebuffer.
  unfoldable pub route_rawkey : RawKey → Writer → Writer
  unfolding scroll_up scroll_down scroll_end
  route_rawkey page_up w = scroll_up glyph_width (max (w.viewport_rows - 1) 1) w
  route_rawkey page_down w = scroll_down glyph_width (max (w.viewport_rows - 1) 1) w
  route_rawkey end_key w = scroll_end glyph_width w
  route_rawkey other_key w = w
