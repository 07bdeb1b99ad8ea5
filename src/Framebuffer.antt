-- ===== src/Framebuffer.antt =====
-- kernel/src/framebuffer.rs: the text console with its scrollback ring. A character is its code
-- point. The pixels are the list of the glyphs blitted since the screen was last erased, in order;
-- the width of a glyph is the font's, a parameter, and its height is `RasterHeight::Size16`.
pub mod Steps
pub mod History
pub mod Scroll
pub mod Screen
pub mod Pixels
use willo_main.Prelude.{
  ℕ, zero, suc, ◌+◌, ◌-◌, ◌*◌, ◌/◌, ◌≤◌, ◌<◌, Bool, true, false, List, [], ◌∷◌, ◌++◌, ltb, leb,
  ◌==◌, if◌then◌else◌, length, get_or, drop, take, push, min,
}

abbrev pub border_padding : ℕ
border_padding = 1

abbrev pub raster_height : ℕ
raster_height = 16

abbrev pub row_height : ℕ
row_height = 18

abbrev pub scrollback_lines : ℕ
scrollback_lines = 256

abbrev pub max_line_len : ℕ
max_line_len = 256

-- A `String` of the ring, by its characters.
abbrev pub Line : Type 0
Line = List ℕ

-- `char::len_utf8`, and `String::len`, which counts bytes.
abbrev pub len_utf8 : ℕ → ℕ
len_utf8 c = if ltb c 0x80 then 1 else if ltb c 0x800 then 2 else if ltb c 0x10000 then 3 else 4

unfoldable pub byte_len : Line → ℕ
byte_len [] = 0
byte_len (c ∷ cs) = len_utf8 c + byte_len cs

-- A glyph with the position of its top left pixel.
pub record Glyph : Type 0 where
  pub char : ℕ
  pub x : ℕ
  pub y : ℕ

pub record Writer : Type 0 where
  pub width : ℕ
  pub height : ℕ
  pub x_pos : ℕ
  pub y_pos : ℕ
  pub ring : List Line
  pub current_line : Line
  pub scroll_back : ℕ
  pub viewport_rows : ℕ
  pub canvas : List Glyph

unfoldable pub new : ℕ → ℕ → Writer
new width height = record {
  width = width;
  height = height;
  x_pos = border_padding;
  y_pos = border_padding;
  ring = [];
  current_line = [];
  scroll_back = 0;
  viewport_rows = (height - 2 * border_padding) / row_height;
  canvas = [];
}

-- Keeps the ring and the line that is being composed.
unfoldable pub clear : Writer → Writer
clear w = record w { x_pos = border_padding; y_pos = border_padding; canvas = [] }

unfoldable pub push_current_to_ring : Writer → Writer
push_current_to_ring w = record w {
  ring = push (if length w.ring == scrollback_lines then drop 1 w.ring else w.ring) w.current_line;
  current_line = [];
}

unfoldable pub carriage_return : Writer → Writer
carriage_return w = record w { x_pos = border_padding }

-- The lines of `ring ++ [current_line]`, and the largest offset into them.
abbrev pub total : Writer → ℕ
total w = length w.ring + 1

abbrev pub max_back : Writer → ℕ
max_back w = total w - w.viewport_rows

module _ (glyph_width : ℕ) where
  -- One line of a redraw, from `x`; the rest of it is dropped where the screen ends. The result is
  -- the glyphs and the `x` behind the last one.
  unfoldable pub draw_line : ℕ → ℕ → ℕ → Line → List Glyph × ℕ
  draw_line width y x [] = ([], x)
  draw_line width y x (c ∷ cs) =
      let (more, end) = draw_line width y (x + glyph_width) cs in
      if leb width (x + glyph_width)
      then ([], x)
      else (record { char = c; x = x; y = y } ∷ more, end)

  -- The rows of a redraw: at most `rows` of the lines, from `y` down. The result is the glyphs, the
  -- last `x` and the number of rows drawn.
  unfoldable pub draw_rows : ℕ → ℕ → ℕ → ℕ → List Line → List Glyph × ℕ × ℕ
  unfolding draw_line
  draw_rows width zero y x lines = ([], x, 0)
  draw_rows width (suc rows) y x [] = ([], x, 0)
  draw_rows width (suc rows) y x (line ∷ lines) =
      let (glyphs, end) = draw_line width y border_padding line in
      let (more, last, n) = draw_rows width rows (y + row_height) end lines in
      (glyphs ++ more, last, suc n)

  -- The lines that a redraw shows: `first..last` of the ring with the current line behind it.
  unfoldable pub window : Writer → ℕ → List Line
  window w back =
      let off = min back (max_back w) in
      let first = total w - (w.viewport_rows + off) in
      take (total w - off - first) (drop first (push w.ring w.current_line))

  -- The loop breaks when `row` reaches `viewport_rows`, but only after a row is drawn, so that one
  -- row is drawn also where no row fits.
  unfoldable pub redraw_visible : ℕ → Writer → Writer
  unfolding draw_rows window
  redraw_visible back w =
      let rows = if w.viewport_rows == 0 then 1 else w.viewport_rows in
      let (glyphs, x, n) = draw_rows w.width rows border_padding border_padding (window w back) in
      record w { x_pos = x; y_pos = border_padding + (n - 1) * row_height; canvas = glyphs }

  unfoldable pub advance_visual_row : Writer → Writer
  unfolding redraw_visible
  advance_visual_row w =
      if leb w.height (w.y_pos + row_height + raster_height + border_padding)
      then record (redraw_visible 0 w) {
        y_pos = border_padding + (w.viewport_rows - 1) * row_height;
        x_pos = border_padding;
      }
      else record w { y_pos = w.y_pos + row_height; x_pos = border_padding }

  unfoldable pub newline : Writer → Writer
  unfolding push_current_to_ring advance_visual_row
  newline w =
      let w' = push_current_to_ring w in if w'.scroll_back == 0 then advance_visual_row w' else w'

  -- The wrap of the line that is being composed, before a character is added.
  unfoldable pub soft_wrap : Writer → Writer
  unfolding newline byte_len
  soft_wrap w = if leb max_line_len (byte_len w.current_line) then newline w else w

  unfoldable pub write_rendered : ℕ → Writer → Writer
  write_rendered c w = record w {
    x_pos = w.x_pos + glyph_width;
    canvas = push w.canvas (record { char = c; x = w.x_pos; y = w.y_pos });
  }

  -- Drawing on the live screen, on the next row where this one is full.
  unfoldable pub blit : ℕ → Writer → Writer
  unfolding advance_visual_row write_rendered
  blit c w =
      if w.scroll_back == 0
      then write_rendered c
          (if leb w.width (w.x_pos + glyph_width) then advance_visual_row w else w)
      else w

  unfoldable pub compose : ℕ → Writer → Writer
  compose c w = record w { current_line = push w.current_line c }

  unfoldable pub write_char : ℕ → Writer → Writer
  unfolding newline carriage_return soft_wrap blit compose
  write_char c w =
      if c == 10
      then newline w
      else if c == 13
      then carriage_return w
      else compose c (blit c (soft_wrap w))

  unfoldable pub write_str : List ℕ → Writer → Writer
  unfolding write_char
  write_str [] w = w
  write_str (c ∷ cs) w = write_str cs (write_char c w)

  -- The common end of the scroll methods: nothing happens where the offset stays.
  abbrev move_to : ℕ → Writer → Writer
  move_to back w =
      if back == w.scroll_back then w else redraw_visible back (record w { scroll_back = back })

  unfoldable pub scroll_up : ℕ → Writer → Writer
  unfolding redraw_visible
  scroll_up n w = move_to (min (w.scroll_back + n) (max_back w)) w

  unfoldable pub scroll_down : ℕ → Writer → Writer
  unfolding redraw_visible
  scroll_down n w = move_to (w.scroll_back - n) w

  unfoldable pub scroll_end : Writer → Writer
  unfolding redraw_visible
  scroll_end w = move_to 0 w
