-- ===== src/Framebuffer/Scroll.antt =====
-- The scroll offset (kernel/src/framebuffer.rs) and the history.
use willo_main.Prelude.{
  ℕ, ◌+◌, ◌-◌, ◌≤◌, ◌≡◌, ◌≢◌, refl, sym, subst, ◌∙◌, ap, List, [], ◌∷◌, ◌==◌, leb, length, drop,
  length-append, length-drop, arith, Bool-cases, inl, inr, min,
}
use willo_main.Framebuffer.{
  Writer, byte_len, max_line_len, scrollback_lines, write_char, write_str, max_back, scroll_up,
  scroll_down, scroll_end, push_current_to_ring,
}
use willo_main.Framebuffer.Steps.{
  TextState, text_state, commit, add, put, put_all, write_str-put_all,
}

-- The ring is within its capacity, and the offset within the history.
pub record InHistory (t : TextState) : Type 0 where
  pub room : length t.ring ≤ scrollback_lines
  pub back : t.scroll_back ≤ length t.ring + 1 - t.viewport_rows

commit-InHistory : (t : TextState) → InHistory t → InHistory (commit t)
unfolding commit
commit-InHistory t h = elim (Bool-cases (length t.ring == scrollback_lines)) [
  | inl full ↦ record {
    room = rw full (
        omega (
          arith,
          length-append (drop 1 t.ring) (t.current_line ∷ []),
          length-drop 1 t.ring,
          h.room,
        ));
    back =
        rw full (
          ground
            (arith, length-append (drop 1 t.ring) (t.current_line ∷ []), length-drop 1 t.ring));
  }
  | inr free ↦ record {
    room = rw free (ground (arith, length-append t.ring (t.current_line ∷ [])));
    back = rw free (omega (arith, length-append t.ring (t.current_line ∷ []), h.back));
  }
]

add-InHistory : (c : ℕ) (t : TextState) → InHistory t → InHistory (add c t)
unfolding add
add-InHistory c t h = record { room = h.room; back = h.back }

put-InHistory : (c : ℕ) (t : TextState) → InHistory t → InHistory (put c t)
unfolding put
put-InHistory c t h = elim (Bool-cases (c == 10)) [
  | inl e ↦ rw e (commit-InHistory t h)
  | inr e ↦ rw e (elim (Bool-cases (c == 13)) [
    | inl f ↦ rw f h
    | inr f ↦ rw f (elim (Bool-cases (leb max_line_len (byte_len t.current_line))) [
      | inl g ↦ rw g (add-InHistory c (commit t) (commit-InHistory t h))
      | inr g ↦ rw g (add-InHistory c t h)
    ])
  ])
]

put_all-InHistory : (s : List ℕ) (t : TextState) → InHistory t → InHistory (put_all s t)
unfolding put_all
put_all-InHistory [] t h = h
put_all-InHistory (c ∷ s) t h = put_all-InHistory s (put c t) (put-InHistory c t h)

module _ (gw : ℕ) where
  -- If the ring holds at most 256 lines and the scroll offset is within the history, this still
  -- holds after write_str.
  pub write_str-InHistory :
      (s : List ℕ) (w : Writer)
      → InHistory (text_state w)
      → InHistory (text_state (write_str gw s w))
  write_str-InHistory s w h =
      subst (λ t. InHistory t) (sym (write_str-put_all gw s w))
        (put_all-InHistory s (text_state w) h)

  -- The offset after each scroll method.
  offset_up :
      (n : ℕ) (w : Writer)
      → text_state (scroll_up gw n w)
        ≡ record (text_state w) { scroll_back = min (w.scroll_back + n) (max_back w) }
  unfolding scroll_up
  offset_up n w = ground arith

  offset_down :
      (n : ℕ) (w : Writer)
      → text_state (scroll_down gw n w) ≡ record (text_state w) { scroll_back = w.scroll_back - n }
  unfolding scroll_down
  offset_down n w = ground arith

  offset_end :
      (w : Writer) → text_state (scroll_end gw w) ≡ record (text_state w) { scroll_back = 0 }
  unfolding scroll_end
  offset_end w = ground arith

  -- If the ring holds at most 256 lines and the scroll offset is within the history, this still
  -- holds after scroll_up, scroll_down and scroll_end.
  pub scroll-InHistory :
      (n : ℕ) (w : Writer)
      → InHistory (text_state w)
      → InHistory (text_state (scroll_up gw n w))
        × InHistory (text_state (scroll_down gw n w))
        × InHistory (text_state (scroll_end gw w))
  scroll-InHistory n w h = (
    subst (λ t. InHistory t) (sym (offset_up n w)) (record { room = h.room; back = omega arith }),
    subst (λ t. InHistory t) (sym (offset_down n w))
        (record { room = h.room; back = omega (arith, h.back) }),
    subst (λ t. InHistory t) (sym (offset_end w)) (record { room = h.room; back = omega arith }),
  )

  -- Where the history has n more lines above, scrolling up by n and down by n gives back the text
  -- and the scroll offset.
  pub scroll_down-scroll_up :
      (n : ℕ) (w : Writer)
      → w.scroll_back + n ≤ max_back w
      → text_state (scroll_down gw n (scroll_up gw n w)) ≡ text_state w
  scroll_down-scroll_up n w h =
      let e : min (w.scroll_back + n) (max_back w) - n ≡ w.scroll_back = omega arith in
      offset_down n (scroll_up gw n w)
      ∙ (ap (λ (t : TextState). record t { scroll_back = t.scroll_back - n }) (offset_up n w)
          ∙ ap (λ k. record (text_state w) { scroll_back = k }) e)

  -- Nothing is drawn while the offset is not zero.
  write_char-canvas :
      (c : ℕ) (w : Writer) → w.scroll_back ≢ 0 → (write_char gw c w).canvas ≡ w.canvas
  unfolding write_char push_current_to_ring
  write_char-canvas c w h = ground arith

  write_char-scroll_back : (c : ℕ) (w : Writer) → (write_char gw c w).scroll_back ≡ w.scroll_back
  unfolding write_char push_current_to_ring
  write_char-scroll_back c w = ground arith

  -- While the view is scrolled back, write_str draws nothing.
  pub write_str-canvas :
      (s : List ℕ) (w : Writer) → w.scroll_back ≢ 0 → (write_str gw s w).canvas ≡ w.canvas
  unfolding write_str
  write_str-canvas [] w h = refl
  write_str-canvas (c ∷ s) w h =
      write_str-canvas s (write_char gw c w) (λ e. h (sym (write_char-scroll_back c w) ∙ e))
      ∙ write_char-canvas c w h
