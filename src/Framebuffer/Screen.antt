-- ===== src/Framebuffer/Screen.antt =====
-- Where the writer (kernel/src/framebuffer.rs) puts its glyphs on the screen.
use willo_main.Prelude.{
  ℕ, zero, suc, ◌+◌, ◌-◌, ◌*◌, ◌/◌, ◌≤◌, ◌<◌, ◌≡◌, refl, List, [], ◌∷◌, ◌==◌, leb, if◌then◌else◌,
  length, arith, Bool-cases, inl, inr, min, All, All-append,
}
use willo_main.Framebuffer.{
  Line, Writer, Glyph, border_padding, row_height, raster_height, byte_len, max_line_len, draw_line,
  draw_rows, window, write_char, write_str, redraw_visible, advance_visual_row, scroll_up,
  scroll_down, scroll_end, newline, push_current_to_ring, soft_wrap, blit, compose, carriage_return,
  new, write_rendered,
}

module _ (gw : ℕ) where
  -- The glyph's pixels have coordinates below the width and the height.
  abbrev pub OnScreen : ℕ → ℕ → Glyph → Type 0
  OnScreen width height g = (g.x + gw < width) × (g.y + raster_height < height)

  -- A screen that holds one row and one glyph.
  pub record IsUsable (viewport_rows height width : ℕ) : Type 0 where
    pub rows : viewport_rows ≡ (height - 2) / 18
    pub one_row : 20 ≤ height
    pub one_glyph : 1 + gw < width

  -- The cursor's row fits, and so does everything drawn.
  pub record Fits (w : Writer) : Type 0 where
    pub usable : IsUsable w.viewport_rows w.height w.width
    pub cursor : w.y_pos + raster_height < w.height
    pub drawn : All (OnScreen w.width w.height) w.canvas

  pub new-Fits : (width height : ℕ) → 20 ≤ height → 1 + gw < width → Fits (new width height)
  unfolding new
  new-Fits width height h k = record {
    usable = record { rows = refl; one_row = h; one_glyph = k };
    cursor = omega arith;
    drawn = tt;
  }

  draw_line-OnScreen :
      (width height y x : ℕ) (line : Line)
      → y + raster_height < height
      → All (OnScreen width height) (draw_line gw width y x line).0
  unfolding draw_line
  draw_line-OnScreen width height y x [] h = tt
  draw_line-OnScreen width height y x (c ∷ cs) h = elim (Bool-cases (leb width (x + gw))) [
    | inl e ↦ rw e tt
    | inr e ↦ rw e ((ground arith, h), draw_line-OnScreen width height y (x + gw) cs h)
  ]

  draw_rows-OnScreen :
      (width height rows y x : ℕ) (lines : List Line)
      → y + rows * 18 ≤ height + 1
      → All (OnScreen width height) (draw_rows gw width rows y x lines).0
  unfolding draw_rows
  draw_rows-OnScreen width height zero y x lines h = tt
  draw_rows-OnScreen width height (suc rows) y x [] h = tt
  draw_rows-OnScreen width height (suc rows) y x (line ∷ lines) h =
      All-append (OnScreen width height) (draw_line gw width y border_padding line).0 _
        (draw_line-OnScreen width height y border_padding line (omega arith))
        (draw_rows-OnScreen width height rows (y + row_height) _ lines (omega arith))

  draw_rows-count :
      (width rows y x : ℕ) (lines : List Line) → (draw_rows gw width rows y x lines).2 ≤ rows
  unfolding draw_rows
  draw_rows-count width zero y x lines = omega arith
  draw_rows-count width (suc rows) y x [] = omega arith
  draw_rows-count width (suc rows) y x (line ∷ lines) =
      omega (arith, draw_rows-count width rows (y + row_height) _ lines)

  rows_to_draw : Writer → ℕ
  rows_to_draw w = if w.viewport_rows == 0 then 1 else w.viewport_rows

  rows_to_draw-fit :
      (w : Writer) → IsUsable w.viewport_rows w.height w.width → rows_to_draw w * 18 ≤ w.height - 2
  unfolding rows_to_draw
  rows_to_draw-fit w u = ground (arith, u.rows, u.one_row)

  redraw_visible-Fits :
      (back : ℕ) (w : Writer)
      → IsUsable w.viewport_rows w.height w.width
      → Fits (redraw_visible gw back w)
  unfolding redraw_visible rows_to_draw
  redraw_visible-Fits back w u = record {
    usable = record { rows = u.rows; one_row = u.one_row; one_glyph = u.one_glyph };
    cursor = omega (
      arith,
      u.one_row,
      rows_to_draw-fit w u,
      draw_rows-count w.width (rows_to_draw w) border_padding border_padding (window gw w back),
    );
    drawn =
        draw_rows-OnScreen w.width w.height (rows_to_draw w) border_padding border_padding
          (window gw w back) (omega (arith, rows_to_draw-fit w u, u.one_row));
  }

  advance_visual_row-Fits : (w : Writer) → Fits w → Fits (advance_visual_row gw w)
  unfolding advance_visual_row
  advance_visual_row-Fits w f =
      elim (Bool-cases (leb w.height (w.y_pos + row_height + raster_height + border_padding))) [
        | inl e ↦ rw e (
            let r = redraw_visible-Fits 0 w f.usable in
            record {
              usable = r.usable;
              cursor = omega (arith, f.usable.rows, f.usable.one_row);
              drawn = r.drawn;
            })
        | inr e ↦ rw e (record { usable = f.usable; cursor = ground arith; drawn = f.drawn })
      ]

  push_current_to_ring-Fits : (w : Writer) → Fits w → Fits (push_current_to_ring w)
  unfolding push_current_to_ring
  push_current_to_ring-Fits w f = record { usable = f.usable; cursor = f.cursor; drawn = f.drawn }

  newline-Fits : (w : Writer) → Fits w → Fits (newline gw w)
  unfolding newline
  newline-Fits w f = elim (Bool-cases ((push_current_to_ring w).scroll_back == 0)) [
    | inl e ↦
        rw e (advance_visual_row-Fits (push_current_to_ring w) (push_current_to_ring-Fits w f))
    | inr e ↦ rw e (push_current_to_ring-Fits w f)
  ]

  soft_wrap-Fits : (w : Writer) → Fits w → Fits (soft_wrap gw w)
  unfolding soft_wrap
  soft_wrap-Fits w f = elim (Bool-cases (leb max_line_len (byte_len w.current_line))) [
    | inl e ↦ rw e (newline-Fits w f)
    | inr e ↦ rw e f
  ]

  write_rendered-Fits :
      (c : ℕ) (w : Writer) → Fits w → w.x_pos + gw < w.width → Fits (write_rendered gw c w)
  unfolding write_rendered
  write_rendered-Fits c w f h = record {
    usable = f.usable;
    cursor = f.cursor;
    drawn = All-append (OnScreen w.width w.height) w.canvas _ f.drawn ((h, f.cursor), tt);
  }

  -- A new row starts at the left border.
  x_pos-advance_visual_row :
      (w : Writer)
      → ((advance_visual_row gw w).x_pos ≡ border_padding)
        × ((advance_visual_row gw w).width ≡ w.width)
  unfolding advance_visual_row
  x_pos-advance_visual_row w = ground arith

  blit-Fits : (c : ℕ) (w : Writer) → Fits w → Fits (blit gw c w)
  unfolding blit
  blit-Fits c w f = elim (Bool-cases (w.scroll_back == 0)) [
    | inr e ↦ rw e f
    | inl e ↦ rw e (elim (Bool-cases (leb w.width (w.x_pos + gw))) [
      | inl g ↦ rw g (
          write_rendered-Fits c (advance_visual_row gw w) (advance_visual_row-Fits w f) (
            let (at_left, wide) = x_pos-advance_visual_row w in
            omega (arith, at_left, wide, f.usable.one_glyph)))
      | inr g ↦ rw g (write_rendered-Fits c w f (ground arith))
    ])
  ]

  compose-Fits : (c : ℕ) (w : Writer) → Fits w → Fits (compose gw c w)
  unfolding compose
  compose-Fits c w f = record { usable = f.usable; cursor = f.cursor; drawn = f.drawn }

  carriage_return-Fits : (w : Writer) → Fits w → Fits (carriage_return w)
  unfolding carriage_return
  carriage_return-Fits w f = record { usable = f.usable; cursor = f.cursor; drawn = f.drawn }

  write_char-Fits : (c : ℕ) (w : Writer) → Fits w → Fits (write_char gw c w)
  unfolding write_char
  write_char-Fits c w f = elim (Bool-cases (c == 10)) [
    | inl e ↦ rw e (newline-Fits w f)
    | inr e ↦ rw e (elim (Bool-cases (c == 13)) [
      | inl g ↦ rw g (carriage_return-Fits w f)
      | inr g ↦ rw g (
          compose-Fits c (blit gw c (soft_wrap gw w))
            (blit-Fits c (soft_wrap gw w) (soft_wrap-Fits w f)))
    ])
  ]

  -- On a screen that holds one row and one glyph, if the cursor's row and every glyph drawn lie on
  -- the screen, this still holds after write_str.
  pub write_str-Fits : (s : List ℕ) (w : Writer) → Fits w → Fits (write_str gw s w)
  unfolding write_str
  write_str-Fits [] w f = f
  write_str-Fits (c ∷ s) w f = write_str-Fits s (write_char gw c w) (write_char-Fits c w f)

  move-Fits :
      (back : ℕ) (w : Writer)
      → Fits w
      → Fits (
          if back == w.scroll_back
          then w
          else redraw_visible gw back (record w { scroll_back = back }))
  move-Fits back w f = elim (Bool-cases (back == w.scroll_back)) [
    | inl e ↦ rw e f
    | inr e ↦ rw e (redraw_visible-Fits back (record w { scroll_back = back }) f.usable)
  ]

  -- On a screen that holds one row and one glyph, if the cursor's row and every glyph drawn lie on
  -- the screen, this still holds after scroll_up, scroll_down and scroll_end.
  pub scroll-Fits :
      (n : ℕ) (w : Writer)
      → Fits w
      → Fits (scroll_up gw n w) × Fits (scroll_down gw n w) × Fits (scroll_end gw w)
  unfolding scroll_up scroll_down scroll_end
  scroll-Fits n w f = (
    move-Fits (min (w.scroll_back + n) (length w.ring + 1 - w.viewport_rows)) w f,
    move-Fits (w.scroll_back - n) w f,
    move-Fits 0 w f,
  )
