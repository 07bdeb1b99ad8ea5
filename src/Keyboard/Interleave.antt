-- ===== src/Keyboard/Interleave.antt =====
-- The steps of `poll_next` (kernel/src/task/keyboard.rs) with interrupts between them, and the task
-- that polls.
use willo_main.Prelude.{
  ℕ, ◌≡◌, none, some, List, ◌∷◌, Option-cases, inl, inr, refl, arith, sym, subst, ◌∙◌,
}
use mathlib.Core.Option.{some-injective}
use willo_main.Keyboard.{
  ScanQueue, WakerCell, Keyboard, Poll, ready, pending, after_register, poll_next, add_scancode,
  pop_step, register_step, take_step,
}

-- Where the shell's task is: outside of a poll or about to make one, behind the first pop that found
-- nothing, behind the registration, with a code, or waiting for a wake.
pub data Phase : Type 0 where
  polling searched registered waiting : Phase
  delivered : ℕ → Phase

pub record System (K Q C : Type 0) : Type 0 where
  pub keyboard : Keyboard K Q C
  pub phase : Phase

module _ {K Q C : Type 0} (queues : ScanQueue Q) (cells : WakerCell K C) (waker : K) where
  pub data Step (s t : System K Q C) : Type 0 where
    interrupt :
        (code : ℕ)
        → t ≡ record s { keyboard = add_scancode queues cells code s.keyboard }
        → Step s t
    pop_found :
        (q : Q) (code : ℕ)
        → s.phase ≡ polling
        → s.keyboard.queue ≡ some q
        → (pop_step queues cells q s.keyboard).0 ≡ some code
        → t ≡ record { keyboard = (pop_step queues cells q s.keyboard).1; phase = delivered code }
        → Step s t
    pop_nothing :
        (q : Q)
        → s.phase ≡ polling
        → s.keyboard.queue ≡ some q
        → (pop_step queues cells q s.keyboard).0 ≡ none
        → t ≡ record { keyboard = (pop_step queues cells q s.keyboard).1; phase = searched }
        → Step s t
    register :
        s.phase ≡ searched
        → t ≡ record { keyboard = register_step queues cells waker s.keyboard; phase = registered }
        → Step s t
    pop_found_again :
        (q : Q) (code : ℕ)
        → s.phase ≡ registered
        → s.keyboard.queue ≡ some q
        → (pop_step queues cells q s.keyboard).0 ≡ some code
        → t ≡ record {
          keyboard = take_step queues cells (pop_step queues cells q s.keyboard).1;
          phase = delivered code;
        }
        → Step s t
    pop_nothing_again :
        (q : Q)
        → s.phase ≡ registered
        → s.keyboard.queue ≡ some q
        → (pop_step queues cells q s.keyboard).0 ≡ none
        → t ≡ record { keyboard = (pop_step queues cells q s.keyboard).1; phase = waiting }
        → Step s t
    -- The executor polls the task again after a wake.
    awake :
        (k : K) (ks : List K)
        → s.phase ≡ waiting
        → s.keyboard.woken ≡ k ∷ ks
        → t ≡ record { keyboard = record s.keyboard { woken = ks }; phase = polling }
        → Step s t
    -- The shell takes the code and polls for the next one.
    consume : (code : ℕ) → s.phase ≡ delivered code → t ≡ record s { phase = polling } → Step s t

  pub data Reach (s : System K Q C) : System K Q C → Type 0 where
    here : Reach s s
    next : {t u : System K Q C} → Reach s t → Step t u → Reach s u

  abbrev pub phase_of : Poll → Phase
  phase_of (ready code) = delivered code
  phase_of pending = waiting

  -- The system after a poll.
  abbrev pub system_of : Poll × Keyboard K Q C → System K Q C
  system_of (r, k) = record { keyboard = k; phase = phase_of r }

  after_register-Reach :
      (s : System K Q C) (k k' : Keyboard K Q C) (r : Poll)
      → Reach s (record { keyboard = k; phase = registered })
      → after_register queues cells k ≡ some (r, k')
      → Reach s (system_of (r, k'))
  unfolding after_register
  after_register-Reach s k k' r reach h = elim (Option-cases k.queue) [
    | inl e ↦ absurd (ground (arith, h, e))
    | inr (q, e) ↦ elim (Option-cases (pop_step queues cells q k).0) [
      | inl n ↦
          (let e1 : after_register queues cells k ≡ some (pending, (pop_step queues cells q k).1) =
              rw (after_register, e, pop_step, n) refl in
            subst (λ p. Reach s (system_of p)) (some-injective _ _ (sym e1 ∙ h))
              (next reach (pop_nothing_again q refl e n refl)))
      | inr (c, f) ↦
          (let e1 : after_register queues cells k
                ≡ some (ready c, take_step queues cells (pop_step queues cells q k).1) =
              rw (after_register, e, pop_step, f) refl in
            subst (λ p. Reach s (system_of p)) (some-injective _ _ (sym e1 ∙ h))
              (next reach (pop_found_again q c refl e f refl)))
    ]
  ]

  -- What poll_next does without an interrupt between its steps is a run of the step relation from
  -- the phase polling, to the phase that fits its result.
  pub poll_next-Reach :
      (k k' : Keyboard K Q C) (r : Poll)
      → poll_next queues cells waker k ≡ some (r, k')
      → Reach (record { keyboard = k; phase = polling }) (system_of (r, k'))
  unfolding poll_next
  poll_next-Reach k k' r h = elim (Option-cases k.queue) [
    | inl e ↦ absurd (ground (arith, h, e))
    | inr (q, e) ↦ elim (Option-cases (pop_step queues cells q k).0) [
      | inl n ↦
          (let k1 = (pop_step queues cells q k).1 in
            let again : poll_next queues cells waker k
                ≡ after_register queues cells (register_step queues cells waker k1) =
              rw (poll_next, e, pop_step, n) refl in
            after_register-Reach _ (register_step queues cells waker k1) k' r
              (next (next here (pop_nothing q refl e n refl)) (register refl refl)) (sym again ∙ h))
      | inr (c, f) ↦
          (let e1 : poll_next queues cells waker k ≡ some (ready c, (pop_step queues cells q k).1) =
              rw (poll_next, e, pop_step, f) refl in
            subst (λ p. Reach (record { keyboard = k; phase = polling }) (system_of p))
              (some-injective _ _ (sym e1 ∙ h)) (next here (pop_found q c refl e f refl)))
    ]
  ]
