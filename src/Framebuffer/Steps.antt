-- ===== src/Framebuffer/Steps.antt =====
-- What the parts of `write_char` (kernel/src/framebuffer.rs) change of the ring and the offset.
use willo_main.Prelude.{
  ℕ, ◌≡◌, refl, ◌∙◌, ap, List, [], ◌∷◌, ◌==◌, leb, if◌then◌else◌, push, length, drop, arith,
  Bool-cases, inl, inr,
}
use willo_main.Framebuffer.{
  Line, Writer, byte_len, max_line_len, push_current_to_ring, carriage_return, redraw_visible,
  advance_visual_row, newline, soft_wrap, blit, compose, write_char, write_str, scrollback_lines,
}

-- The part of a writer that drawing leaves alone.
pub record TextState : Type 0 where
  pub ring : List Line
  pub current_line : Line
  pub scroll_back : ℕ
  pub viewport_rows : ℕ
  pub width : ℕ
  pub height : ℕ

abbrev pub text_state : Writer → TextState
text_state w = record {
  ring = w.ring;
  current_line = w.current_line;
  scroll_back = w.scroll_back;
  viewport_rows = w.viewport_rows;
  width = w.width;
  height = w.height;
}

carriage_return-text_state : (w : Writer) → text_state (carriage_return w) ≡ text_state w
unfolding carriage_return
carriage_return-text_state w = refl

module _ (gw : ℕ) where
  pub redraw_visible-text_state :
      (back : ℕ) (w : Writer) → text_state (redraw_visible gw back w) ≡ text_state w
  unfolding redraw_visible
  redraw_visible-text_state back w = refl

  pub advance_visual_row-text_state :
      (w : Writer) → text_state (advance_visual_row gw w) ≡ text_state w
  unfolding advance_visual_row
  advance_visual_row-text_state w = ground arith

  pub newline-text_state :
      (w : Writer) → text_state (newline gw w) ≡ text_state (push_current_to_ring w)
  unfolding newline
  newline-text_state w = ground (arith, advance_visual_row-text_state (push_current_to_ring w))

  pub blit-text_state : (c : ℕ) (w : Writer) → text_state (blit gw c w) ≡ text_state w
  unfolding blit
  blit-text_state c w = ground (arith, advance_visual_row-text_state w)

-- The same steps on the text alone.
unfoldable pub commit : TextState → TextState
commit t = record t {
  ring = push (if length t.ring == scrollback_lines then drop 1 t.ring else t.ring) t.current_line;
  current_line = [];
}

unfoldable pub add : ℕ → TextState → TextState
add c t = record t { current_line = push t.current_line c }

unfoldable pub put : ℕ → TextState → TextState
unfolding commit add
put c t =
    if c == 10
    then commit t
    else if c == 13
    then t
    else add c (if leb max_line_len (byte_len t.current_line) then commit t else t)

unfoldable pub put_all : List ℕ → TextState → TextState
unfolding put
put_all [] t = t
put_all (c ∷ cs) t = put_all cs (put c t)

push_current_to_ring-commit :
    (w : Writer) → text_state (push_current_to_ring w) ≡ commit (text_state w)
unfolding push_current_to_ring commit
push_current_to_ring-commit w = refl

module _ (gw : ℕ) where
  newline-commit : (w : Writer) → text_state (newline gw w) ≡ commit (text_state w)
  newline-commit w = newline-text_state gw w ∙ push_current_to_ring-commit w

  compose-add : (c : ℕ) (w : Writer) → text_state (compose gw c w) ≡ add c (text_state w)
  unfolding compose add
  compose-add c w = refl

  soft_wrap-commit :
      (w : Writer)
      → text_state (soft_wrap gw w) ≡ (
          if leb max_line_len (byte_len w.current_line)
          then commit (text_state w)
          else text_state w)
  unfolding soft_wrap
  soft_wrap-commit w = elim (Bool-cases (leb max_line_len (byte_len w.current_line))) [
    | inl e ↦ rw e (newline-commit w)
    | inr e ↦ rw e
  ]

  -- The text that a character leaves depends on the text before it, not on the screen.
  write_char-put : (c : ℕ) (w : Writer) → text_state (write_char gw c w) ≡ put c (text_state w)
  unfolding write_char put
  write_char-put c w = elim (Bool-cases (c == 10)) [
    | inl e ↦ rw e (newline-commit w)
    | inr e ↦ rw e (elim (Bool-cases (c == 13)) [
      | inl f ↦ rw f (carriage_return-text_state w)
      | inr f ↦ rw f (
          compose-add c (blit gw c (soft_wrap gw w))
          ∙ ap (add c) (blit-text_state gw c (soft_wrap gw w) ∙ soft_wrap-commit w))
    ])
  ]

  pub write_str-put_all :
      (s : List ℕ) (w : Writer) → text_state (write_str gw s w) ≡ put_all s (text_state w)
  unfolding write_str put_all
  write_str-put_all [] w = refl
  write_str-put_all (c ∷ s) w =
      write_str-put_all s (write_char gw c w) ∙ ap (put_all s) (write_char-put c w)
