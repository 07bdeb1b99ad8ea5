-- ===== src/Tests/Framebuffer.antt =====
-- The console writer (kernel/src/framebuffer.rs) on a small screen, with a font 9 pixels wide.
use willo_main.Prelude.{
  ℕ, ◌≡◌, ◌≢◌, refl, List, [], ◌∷◌, Text, codes, replicate, length, length-replicate, arith,
}
use willo_main.Framebuffer.{Writer, new, max_back, write_str, scroll_up}
use willo_main.Framebuffer.Steps.{text_state}
use willo_main.Framebuffer.History.{Log, Shows, newest, log_str, write_str-Shows}
use willo_main.Framebuffer.Scroll.{InHistory, write_str-InHistory}
use willo_main.Framebuffer.Screen.{Fits, new-Fits, write_str-Fits}
use willo_main.Framebuffer.Pixels.{
  bgr, other, FrameBufferInfo, IsScreen, DrawsOn, paint, paint-write_str,
}

abbrev screen : Writer
screen = new 64 40

abbrev start : Log
start = record { lines = []; composing = [] }

-- Four lines, of which the screen shows two.
abbrev written : Writer
written = write_str 9 (codes "ab\nc\nd\ne") screen

abbrev scrolled : Writer
scrolled = scroll_up 9 1 written

started : Shows (text_state screen) start
unfolding new newest
started = (refl, refl)

screen-InHistory : InHistory (text_state screen)
unfolding new
screen-InHistory = record { room = omega arith; back = omega arith }

written-InHistory : InHistory (text_state written)
written-InHistory = write_str-InHistory 9 (codes "ab\nc\nd\ne") screen screen-InHistory

screen-Fits : Fits 9 screen
screen-Fits = new-Fits 9 64 40 (omega arith) (omega arith)

written-Fits : Fits 9 written
written-Fits = write_str-Fits 9 (codes "ab\nc\nd\ne") screen screen-Fits

room_above : (written.scroll_back ≡ 0) × (max_back written ≡ 2)
unfolding new write_str
room_above = (refl, refl)

away : scrolled.scroll_back ≢ 0
unfolding new write_str scroll_up
away = λ e. omega (arith, e)

write_str-Shows_example : Shows (text_state written) (log_str (codes "ab\nc\nd\ne") start)
write_str-Shows_example = write_str-Shows 9 (codes "ab\nc\nd\ne") screen start started

new-Fits_example : Fits 9 screen
new-Fits_example = new-Fits 9 64 40 (omega arith) (omega arith)

write_str-Fits_example : Fits 9 written
write_str-Fits_example = write_str-Fits 9 (codes "ab\nc\nd\ne") screen screen-Fits

-- A font of one glyph, two pixels wide.
abbrev dots : ℕ → List (List ℕ)
dots c = (255 ∷ 0 ∷ []) ∷ (0 ∷ 90 ∷ []) ∷ []

abbrev info : FrameBufferInfo
info = record { stride = 64; bytes_per_pixel = 3; pixel_format = bgr }

abbrev black : Text
black = replicate 7680 0

bgr-other : bgr ≢ other
bgr-other e = absurd cc

black-IsScreen : IsScreen info 64 40 black
black-IsScreen = record {
  known = bgr-other;
  some_bytes = omega arith;
  few_bytes = omega arith;
  wide = omega arith;
  whole = (let size : length black ≡ 7680 = length-replicate {A = ℕ} 7680 0 in omega (arith, size));
}

paint-write_str_example : DrawsOn black (paint dots info written.canvas black)
unfolding new
paint-write_str_example =
    paint-write_str 9 dots info black (codes "ab\nc\nd\ne") screen
      (λ c. (omega arith, (omega arith, tt))) (λ c. omega arith) screen-Fits black-IsScreen
