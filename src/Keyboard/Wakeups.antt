-- ===== src/Keyboard/Wakeups.antt =====
-- No wake is lost between an interrupt and a poll (kernel/src/task/keyboard.rs).
use willo_main.Prelude.{
  ℕ, ◌≡◌, ◌⊎◌, inl, inr, refl, sym, subst, ◌∙◌, Bool, true, false, Option, none, some, List, [],
  ◌∷◌, Option-cases,
}
use willo_main.Keyboard.{
  ScanQueue, WakerCell, Keyboard, add_scancode, wake, pop_step, register_step, wake_up, first_code,
  rest_codes,
}
use willo_main.Keyboard.Interleave.{
  Phase, polling, searched, registered, waiting, delivered, System, Step, interrupt, pop_found,
  pop_nothing, register, pop_found_again, pop_nothing_again, awake, consume, Reach, here, next,
}

abbrev pub is_woken : {K : Type 0} → List K → Bool
is_woken [] = false
is_woken (k ∷ ks) = true

module _ {K Q C : Type 0} (queues : ScanQueue Q) (cells : WakerCell K C) (waker : K) where
  abbrev pub HasNoCodes : Option Q → Type 0
  HasNoCodes none = Unit
  HasNoCodes (some q) = queues.codes q ≡ []

  -- The waker is registered, or it has woken the task since.
  abbrev pub IsArmed : Keyboard K Q C → Type 0
  IsArmed k = (is_woken k.woken ≡ true) ⊎ (cells.held k.waker ≡ some waker)

  -- The same, and if the task has not been woken then there is nothing to read.
  abbrev pub IsQuiet : Keyboard K Q C → Type 0
  IsQuiet k = (is_woken k.woken ≡ true) ⊎ ((cells.held k.waker ≡ some waker) × HasNoCodes k.queue)

  abbrev pub IsHeard : Phase → Keyboard K Q C → Type 0
  IsHeard polling k = Unit
  IsHeard searched k = Unit
  IsHeard registered k = IsArmed k
  IsHeard waiting k = IsQuiet k
  IsHeard (delivered c) k = Unit

  wake_up-is_woken :
      (w : Option K) (woken : List K)
      → (is_woken woken ≡ true) ⊎ (w ≡ some waker)
      → is_woken (wake_up w woken) ≡ true
  wake_up-is_woken none woken (inl h) = h
  wake_up-is_woken none woken (inr h) = cc
  wake_up-is_woken (some k) woken h = refl

  wake-is_woken : (k : Keyboard K Q C) → IsArmed k → is_woken (wake queues cells k).woken ≡ true
  unfolding wake
  wake-is_woken k (inl h) = wake_up-is_woken (cells.take k.waker).0 k.woken (inl h)
  wake-is_woken k (inr h) =
      wake_up-is_woken (cells.take k.waker).0 k.woken (inr (cells.take-held k.waker ∙ h))

  add_scancode-IsArmed :
      (code : ℕ) (k : Keyboard K Q C) → IsArmed k → IsArmed (add_scancode queues cells code k)
  unfolding add_scancode
  add_scancode-IsArmed code k h = elim (Option-cases k.queue) [
    | inl e ↦ rw (add_scancode, e) h
    | inr (q, e) ↦ inl (
        rw (add_scancode, e)
          (wake-is_woken (record k { queue = some (queues.push_code code q) }) h))
  ]

  add_scancode-IsQuiet :
      (code : ℕ) (k : Keyboard K Q C) → IsQuiet k → IsQuiet (add_scancode queues cells code k)
  unfolding add_scancode
  add_scancode-IsQuiet code k h = elim (Option-cases k.queue) [
    | inl e ↦ rw (add_scancode, e) h
    | inr (q, e) ↦ inl (
        rw (add_scancode, e)
          (wake-is_woken (record k { queue = some (queues.push_code code q) }) (armed h)))
  ]
    where
      armed : IsQuiet k → IsArmed k
      armed (inl x) = inl x
      armed (inr (x, y)) = inr x

  interrupt-IsHeard :
      (code : ℕ) (phase : Phase) (k : Keyboard K Q C)
      → IsHeard phase k
      → IsHeard phase (add_scancode queues cells code k)
  interrupt-IsHeard code polling k h = tt
  interrupt-IsHeard code searched k h = tt
  interrupt-IsHeard code registered k h = add_scancode-IsArmed code k h
  interrupt-IsHeard code waiting k h = add_scancode-IsQuiet code k h
  interrupt-IsHeard code (delivered c) k h = tt

  no_first : (codes : List ℕ) → first_code codes ≡ none → rest_codes codes ≡ []
  no_first [] h = refl
  no_first (c ∷ codes) h = cc

  -- A pop that finds nothing leaves nothing.
  pop-IsQuiet :
      (q : Q) (k : Keyboard K Q C)
      → (pop_step queues cells q k).0 ≡ none
      → IsArmed k
      → IsQuiet (pop_step queues cells q k).1
  unfolding pop_step
  pop-IsQuiet q k h (inl w) = inl w
  pop-IsQuiet q k h (inr w) =
      inr
        (w, queues.codes-pop_code q ∙ no_first (queues.codes q) (sym (queues.pop_code-first q) ∙ h))

  abbrev Heard : System K Q C → Type 0
  Heard s = IsHeard s.phase s.keyboard

  pub Step-IsHeard : {s t : System K Q C} → Step queues cells waker s t → Heard s → Heard t
  unfolding register_step
  Step-IsHeard {s} (interrupt code e) h =
      subst Heard (sym e) (interrupt-IsHeard code s.phase s.keyboard h)
  Step-IsHeard (pop_found q code p a b e) h = subst Heard (sym e) tt
  Step-IsHeard (pop_nothing q p a b e) h = subst Heard (sym e) tt
  Step-IsHeard {s} (register p e) h =
      subst Heard (sym e) (inr (cells.held-register waker s.keyboard.waker))
  Step-IsHeard (pop_found_again q code p a b e) h = subst Heard (sym e) tt
  Step-IsHeard {s} (pop_nothing_again q p a b e) h =
      subst Heard (sym e) (pop-IsQuiet q s.keyboard b (subst (λ f. IsHeard f s.keyboard) p h))
  Step-IsHeard (awake k ks p a e) h = subst Heard (sym e) tt
  Step-IsHeard (consume code p e) h = subst Heard (sym e) tt

  Reach-IsHeard : {s t : System K Q C} → Reach queues cells waker s t → Heard s → Heard t
  Reach-IsHeard here h = h
  Reach-IsHeard (next r st) h = Step-IsHeard st (Reach-IsHeard r h)

  -- However interrupts come between the steps of the stream, when it waits after a poll that began
  -- with its phase polling, its task has been woken, or its waker is registered and the queue
  -- holds no scan code: no wake-up is lost.
  pub Reach-IsQuiet :
      (s t : System K Q C)
      → s.phase ≡ polling
      → Reach queues cells waker s t
      → t.phase ≡ waiting
      → IsQuiet t.keyboard
  Reach-IsQuiet s t p r e =
      subst (λ f. IsHeard f t.keyboard) e
        (Reach-IsHeard r (subst (λ f. IsHeard f s.keyboard) (sym p) tt))
