-- ===== src/Interrupts.antt =====
-- kernel/src/interrupts.rs: the handlers of page faults, of the timer and of the keyboard, as
-- functions of what they read. Log lines are left out.
use willo_main.Prelude.{ℕ, ◌+◌, ◌%◌, ◌^◌, ◌≡◌, ◌≢◌, refl, false, ◌==◌, if◌then◌else◌, arith}
use willo_main.Keyboard.{Keyboard, ScanQueue, WakerCell, add_scancode}

abbrev pic_1_offset : ℕ
pic_1_offset = 32

-- `Irq`
pub data Irq : Type 0 where
  timer keyboard : Irq

abbrev pub as_u8 : Irq → ℕ
as_u8 timer = pic_1_offset
as_u8 keyboard = pic_1_offset + 1

-- What a handler of a fault ends in: it returns to an address, halts for ever, or leaves the
-- emulator with a failure.
pub data Ending : Type 0 where
  returns : ℕ → Ending
  halts : Ending
  exits_failed : Ending

-- `page_fault_handler`, for the saved code segment and instruction pointer, with what is left in
-- `EXPECTED_FAULT_FIXUP`.
unfoldable pub page_fault_handler : ℕ → ℕ → ℕ → Ending × ℕ
page_fault_handler cs rip fixup =
    if cs % 4 == 3
    then (halts, fixup)
    else if fixup == 0
    then (exits_failed, 0)
    else (returns fixup, 0)

-- `timer_handler`: the ticks, and the interrupt that is acknowledged.
unfoldable pub timer_handler : ℕ → ℕ × ℕ
timer_handler ticks = ((ticks + 1) % 2 ^ 64, as_u8 timer)

-- `keyboard_handler`, for the byte that the port gives.
unfoldable pub keyboard_handler :
    {K Q C : Type 0} → ScanQueue Q → WakerCell K C → ℕ → Keyboard K Q C → Keyboard K Q C × ℕ
unfolding add_scancode
keyboard_handler queues cells scancode k = (add_scancode queues cells scancode k, as_u8 keyboard)

not_equal : (a b : ℕ) → a ≢ b → (a == b) ≡ false
not_equal a b h = ground (arith, h)

-- An address to resume at serves one fault of the kernel: the next one, with none set since, fails.
fixup_once :
    (cs rip cs' rip' fixup : ℕ)
    → cs % 4 ≢ 3
    → cs' % 4 ≢ 3
    → fixup ≢ 0
    → let (first, left) = page_fault_handler cs rip fixup in
      (first ≡ returns fixup) × (page_fault_handler cs' rip' left ≡ (exits_failed, 0))
unfolding page_fault_handler
fixup_once cs rip cs' rip' fixup h h' f =
    rw (not_equal (cs % 4) 3 h, not_equal (cs' % 4) 3 h', not_equal fixup 0 f) (refl, refl)
