-- ===== src/Tests/Keyboard.antt =====
-- The scan code queue (kernel/src/task/keyboard.rs) with lists for queues and options for wakers.
use willo_main.Prelude.{ℕ, ◌≡◌, refl, Option, none, some, List, [], ◌∷◌}
use willo_main.Keyboard.{
  ScanQueue, WakerCell, Keyboard, pending, pushed, first_code, rest_codes, add_scancode, poll_next,
}
use willo_main.Keyboard.Interleave.{polling, waiting, Reach, next, interrupt, poll_next-Reach}
use willo_main.Keyboard.Wakeups.{IsQuiet, Reach-IsQuiet}

abbrev queues : ScanQueue (List ℕ)
queues = record {
  codes = λ q. q;
  new_queue = [];
  push_code = λ code q. pushed q code;
  pop_code = λ q. (first_code q, rest_codes q);
  codes-new_queue = refl;
  codes-push_code = λ code q. refl;
  pop_code-first = λ q. refl;
  codes-pop_code = λ q. refl;
}

abbrev cells : WakerCell ℕ (Option ℕ)
cells = record {
  held = λ c. c;
  register = λ waker c. some waker;
  take = λ c. (c, none);
  held-register = λ waker c. refl;
  take-held = λ c. refl;
  held-take = λ c. refl;
}

abbrev empty : Keyboard ℕ (List ℕ) (Option ℕ)
empty = record { queue = some []; waker = none; woken = [] }

abbrev parked : Keyboard ℕ (List ℕ) (Option ℕ)
parked = record { queue = some []; waker = some 7; woken = [] }

abbrev pressed : Keyboard ℕ (List ℕ) (Option ℕ)
pressed = record { queue = some (30 ∷ []); waker = none; woken = 7 ∷ [] }

poll_run : poll_next queues cells 7 empty ≡ some (pending, parked)
unfolding poll_next
poll_run = refl

press_run : add_scancode queues cells 30 parked ≡ pressed
unfolding add_scancode
press_run = refl

poll_next-Reach_example :
    Reach queues cells 7
      (record { keyboard = empty; phase = polling })
      (record { keyboard = parked; phase = waiting })
poll_next-Reach_example = poll_next-Reach queues cells 7 empty parked pending poll_run

parked_then_pressed :
    Reach queues cells 7
      (record { keyboard = empty; phase = polling })
      (record { keyboard = pressed; phase = waiting })
unfolding add_scancode
parked_then_pressed =
    next (poll_next-Reach queues cells 7 empty parked pending poll_run) (interrupt 30 refl)

Reach-IsQuiet_example : IsQuiet queues cells 7 pressed
Reach-IsQuiet_example =
    Reach-IsQuiet queues cells 7 (record { keyboard = empty; phase = polling })
      (record { keyboard = pressed; phase = waiting }) refl parked_then_pressed refl
