-- ===== src/Framebuffer/Pixels.antt =====
-- kernel/src/framebuffer.rs: the bytes of the framebuffer under the glyphs. The formats are those of
-- the bootloader_api crate, of which the writer knows the first three; the font is a parameter, with
-- a glyph as its rows of intensities. `none` is a panic: a slice out of range or the format `other`.
use willo_main.Prelude.{
  ℕ, suc, ◌+◌, ◌*◌, ◌/◌, ◌≤◌, ◌<◌, ◌≡◌, ◌≢◌, refl, ◌∙◌, ap, subst, true, ◌&&◌, Option, none, some,
  List, [], ◌∷◌, ◌++◌, Text, ltb, leb, if◌then◌else◌, length, length-append, length-take,
  length-drop, take, drop, arith, mul_mono, All,
}
use willo_main.Framebuffer.{Writer, Glyph, raster_height, write_str}
use willo_main.Framebuffer.Steps.{
  TextState, text_state, commit, add, put, put_all, write_str-put_all,
}
use willo_main.Framebuffer.Screen.{Fits, OnScreen, write_str-Fits}

pub data PixelFormat : Type 0 where
  rgb bgr u8 other : PixelFormat

-- The fields of `FrameBufferInfo` that write_pixel reads.
pub record FrameBufferInfo : Type 0 where
  pub stride : ℕ
  pub bytes_per_pixel : ℕ
  pub pixel_format : PixelFormat

abbrev pub color : PixelFormat → ℕ → Option Text
color rgb intensity = some (intensity ∷ intensity ∷ intensity / 2 ∷ 0 ∷ [])
color bgr intensity = some (intensity / 2 ∷ intensity ∷ intensity ∷ 0 ∷ [])
color u8 intensity = some ((if ltb 200 intensity then 0xf else 0) ∷ 0 ∷ 0 ∷ 0 ∷ [])
color other intensity = none

-- `buffer[at..at + n].copy_from_slice(&bytes[..n])`, with the read of `buffer[at]` behind it.
unfoldable pub copy_at : ℕ → ℕ → Text → Text → Option Text
copy_at at n bytes buffer =
    if leb n (length bytes) && (leb (at + n) (length buffer) && ltb at (length buffer))
    then some (take at buffer ++ (take n bytes ++ drop n (drop at buffer)))
    else none

-- `?` on a panic.
abbrev pub and_draw : Option Text → (Text → Option Text) → Option Text
and_draw none draw = none
and_draw (some b) draw = draw b

unfoldable pub write_pixel : FrameBufferInfo → ℕ → ℕ → ℕ → Text → Option Text
unfolding copy_at
write_pixel info x y intensity buffer =
    and_draw (color info.pixel_format intensity)
      (λ c. copy_at ((y * info.stride + x) * info.bytes_per_pixel) info.bytes_per_pixel c buffer)

-- The inner loop of write_rendered, over the bytes of a row.
unfoldable pub write_row : FrameBufferInfo → ℕ → ℕ → List ℕ → Text → Option Text
unfolding write_pixel
write_row info x y [] buffer = some buffer
write_row info x y (intensity ∷ row) buffer =
    and_draw (write_pixel info x y intensity buffer) (write_row info (x + 1) y row)

-- The outer loop, over the rows of a raster.
unfoldable pub write_raster : FrameBufferInfo → ℕ → ℕ → List (List ℕ) → Text → Option Text
unfolding write_row
write_raster info x y [] buffer = some buffer
write_raster info x y (row ∷ rows) buffer =
    and_draw (write_row info x y row buffer) (write_raster info x (y + 1) rows)

-- All glyphs that were blitted, in order.
unfoldable pub paint : (ℕ → List (List ℕ)) → FrameBufferInfo → List Glyph → Text → Option Text
unfolding write_raster
paint raster_for info [] buffer = some buffer
paint raster_for info (g ∷ glyphs) buffer =
    and_draw (write_raster info g.x g.y (raster_for g.char) buffer) (paint raster_for info glyphs)

-- A panic does not occur, and the buffer keeps its length.
abbrev pub DrawsOn : Text → Option Text → Type 0
DrawsOn buffer none = ⊥
DrawsOn buffer (some b) = length b ≡ length buffer

-- A framebuffer that the bootloader describes as one of this width and height.
pub record IsScreen (info : FrameBufferInfo) (width height : ℕ) (buffer : Text) : Type 0 where
  pub known : info.pixel_format ≢ other
  pub some_bytes : 0 < info.bytes_per_pixel
  pub few_bytes : info.bytes_per_pixel ≤ 4
  pub wide : width ≤ info.stride
  pub whole : height * info.stride * info.bytes_per_pixel ≤ length buffer

and_draw-DrawsOn :
    (buffer : Text) (r : Option Text) (draw : Text → Option Text)
    → DrawsOn buffer r
    → ((b : Text) → length b ≡ length buffer → DrawsOn b (draw b))
    → DrawsOn buffer (and_draw r draw)
and_draw-DrawsOn buffer none draw h k = h
and_draw-DrawsOn buffer (some b) draw h k = keeps (draw b) (k b h)
  where
    keeps : (r : Option Text) → DrawsOn b r → DrawsOn buffer r
    keeps none d = d
    keeps (some b') d = d ∙ h

-- The last byte of a pixel on the screen.
pixel_end :
    (stride height n x y : ℕ)
    → x < stride
    → y < height
    → (y * stride + x) * n + n ≤ height * stride * n
pixel_end stride height n x y a b =
    let rows = mul_mono stride (suc y) height b in
    let pixels = mul_mono n (y * stride + x + 1) (height * stride) (omega (arith, rows, a)) in
    omega (arith, pixels)

copy_at-DrawsOn :
    (at n : ℕ) (bytes buffer : Text)
    → n ≤ length bytes
    → 0 < n
    → at + n ≤ length buffer
    → DrawsOn buffer (copy_at at n bytes buffer)
unfolding copy_at
copy_at-DrawsOn at n bytes buffer h k l =
    let head : leb n (length bytes) ≡ true = ground (arith, h) in
    let whole : leb (at + n) (length buffer) ≡ true = ground (arith, l) in
    let first : ltb at (length buffer) ≡ true = ground (arith, l, k) in
    rw (head, whole, first)
      (omega (
        arith,
        h,
        l,
        length-append (take at buffer) (take n bytes ++ drop n (drop at buffer)),
        length-append (take n bytes) (drop n (drop at buffer)),
        length-take at buffer,
        length-take n bytes,
        length-drop n (drop at buffer),
        length-drop at buffer,
      ))

color-known :
    (f : PixelFormat) (intensity : ℕ) (at n : ℕ) (buffer : Text)
    → f ≢ other
    → n ≤ 4
    → 0 < n
    → at + n ≤ length buffer
    → DrawsOn buffer (and_draw (color f intensity) (λ c. copy_at at n c buffer))
color-known rgb i at n buffer u h k l = copy_at-DrawsOn at n _ buffer h k l
color-known bgr i at n buffer u h k l = copy_at-DrawsOn at n _ buffer h k l
color-known u8 i at n buffer u h k l = copy_at-DrawsOn at n _ buffer h k l
color-known other i at n buffer u h k l = absurd (u refl)

module _ (info : FrameBufferInfo) (width height : ℕ) where
  IsScreen-kept :
      (buffer b : Text)
      → IsScreen info width height buffer
      → length b ≡ length buffer
      → IsScreen info width height b
  IsScreen-kept buffer b s e = record {
    known = s.known;
    some_bytes = s.some_bytes;
    few_bytes = s.few_bytes;
    wide = s.wide;
    whole = rw e s.whole;
  }

  write_row-DrawsOn :
      (x y : ℕ) (row : List ℕ) (buffer : Text)
      → IsScreen info width height buffer
      → x + length row ≤ width
      → y < height
      → DrawsOn buffer (write_row info x y row buffer)
  unfolding write_row write_pixel
  write_row-DrawsOn x y [] buffer s h k = refl
  write_row-DrawsOn x y (i ∷ row) buffer s h k =
      and_draw-DrawsOn buffer (write_pixel info x y i buffer) (write_row info (x + 1) y row)
        (color-known info.pixel_format i _ info.bytes_per_pixel buffer s.known s.few_bytes
          s.some_bytes
          (omega (
            arith,
            s.whole,
            pixel_end info.stride height info.bytes_per_pixel x y (omega (arith, s.wide, h)) k,
          )))
        (λ b e. write_row-DrawsOn (x + 1) y row b (IsScreen-kept buffer b s e) (omega (arith, h)) k)

  write_raster-DrawsOn :
      (gw x y : ℕ) (rows : List (List ℕ)) (buffer : Text)
      → IsScreen info width height buffer
      → All (λ row. length row ≤ gw) rows
      → x + gw ≤ width
      → y + length rows ≤ height
      → DrawsOn buffer (write_raster info x y rows buffer)
  unfolding write_raster
  write_raster-DrawsOn gw x y [] buffer s a h k = refl
  write_raster-DrawsOn gw x y (row ∷ rows) buffer s a h k =
      and_draw-DrawsOn buffer (write_row info x y row buffer) (write_raster info x (y + 1) rows)
        (write_row-DrawsOn x y row buffer s (omega (arith, h, a.0)) (omega (arith, k)))
        (λ b e.
          write_raster-DrawsOn gw x (y + 1) rows b (IsScreen-kept buffer b s e) a.1 h
            (omega (arith, k)))

  module _ (gw : ℕ) (raster_for : ℕ → List (List ℕ))
      (narrow : (c : ℕ) → All (λ row. length row ≤ gw) (raster_for c))
      (low : (c : ℕ) → length (raster_for c) ≤ raster_height) where
    paint-DrawsOn :
        (glyphs : List Glyph) (buffer : Text)
        → IsScreen info width height buffer
        → All (OnScreen gw width height) glyphs
        → DrawsOn buffer (paint raster_for info glyphs buffer)
    unfolding paint
    paint-DrawsOn [] buffer s a = refl
    paint-DrawsOn (g ∷ glyphs) buffer s a =
        and_draw-DrawsOn buffer (write_raster info g.x g.y (raster_for g.char) buffer)
          (paint raster_for info glyphs)
          (write_raster-DrawsOn gw g.x g.y (raster_for g.char) buffer s (narrow g.char)
            (omega (arith, a.0.0)) (omega (arith, a.0.1, low g.char)))
          (λ b e. paint-DrawsOn glyphs b (IsScreen-kept buffer b s e) a.1)

put-size : (c : ℕ) (t : TextState) → ((put c t).width ≡ t.width) × ((put c t).height ≡ t.height)
unfolding put commit add
put-size c t = ground arith

put_all-size :
    (s : List ℕ) (t : TextState)
    → ((put_all s t).width ≡ t.width) × ((put_all s t).height ≡ t.height)
unfolding put_all
put_all-size [] t = (refl, refl)
put_all-size (c ∷ s) t =
    let (wide, high) = put_all-size s (put c t) in
    let (wide', high') = put-size c t in (wide ∙ wide', high ∙ high')

-- With a font whose glyphs have at most 16 rows, none wider than the glyph width, in a framebuffer
-- that is as long as its stride, height and bytes per pixel say, with a stride of at least the
-- width, one to four bytes per pixel and a known pixel format: if the cursor's row and every glyph
-- drawn lie on a screen that holds one row and one glyph, then after write_str the pixels of all
-- glyphs on the screen are written inside the framebuffer, without a panic, and it keeps its
-- length.
pub paint-write_str :
    (gw : ℕ) (raster_for : ℕ → List (List ℕ)) (info : FrameBufferInfo) (buffer : Text) (s : List ℕ)
    (w : Writer)
    → ((c : ℕ) → All (λ row. length row ≤ gw) (raster_for c))
    → ((c : ℕ) → length (raster_for c) ≤ raster_height)
    → Fits gw w
    → IsScreen info w.width w.height buffer
    → DrawsOn buffer (paint raster_for info (write_str gw s w).canvas buffer)
paint-write_str gw raster_for info buffer s w narrow low f screen =
    let (wide, high) = put_all-size s (text_state w) in
    let width : (write_str gw s w).width ≡ w.width =
      ap (λ t. t.width) (write_str-put_all gw s w) ∙ wide in
    let height : (write_str gw s w).height ≡ w.height =
      ap (λ t. t.height) (write_str-put_all gw s w) ∙ high in
    paint-DrawsOn info w.width w.height gw raster_for narrow low (write_str gw s w).canvas buffer
      screen
      (subst (λ n. All (OnScreen gw n w.height) (write_str gw s w).canvas) width
        (subst (λ n. All (OnScreen gw (write_str gw s w).width n) (write_str gw s w).canvas) height
          (write_str-Fits gw s w f).drawn))
