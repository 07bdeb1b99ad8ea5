-- ===== src/Ata/Writes.antt =====
-- Writing a sector (kernel/src/ata.rs, `write_block`), and reading what was written.
use willo_main.Prelude.{
  ℕ, ◌+◌, ◌*◌, ◌%◌, ◌^◌, ◌<◌, ◌≤◌, ◌≡◌, refl, sym, ◌∙◌, ap, subst, true, List, [], ◌∷◌, ◌++◌, Text,
  leb, ltb, ◌==◌, length, push, take, Bool-cases, inl, inr, arith, append_assoc, length-append,
  length-take,
}
use willo_main.Block.{BlockResult, moved, failed, block_size}
use willo_main.Ata.{
  Ports, wait_not_busy, wait_drq, delay_400ns, select_lba28, write_sector, cmd_write_sectors,
}
use willo_main.Ata.Protocol.{View, Transfer, IsAta, idle, writing, storing, start_write}
use willo_main.Ata.Settled.{
  handle, settle, transfer_of, IsSteady, writing-IsSteady, failed_not_moved,
}
use willo_main.Ata.Polls.{
  wait_not_busy-IsOpen, wait_not_busy-stores, wait_drq-Settled, delay_400ns-Settled,
}
use willo_main.Ata.Reads.{IsSelected, select_lba28-IsSelected, and_then-moved, leb-false}
use willo_main.Ata.Words.{words_of, stored, length-words_of, is_255, not_255, no_words, ltb-false}
use willo_main.Ata.Drive.{write_block, send_sector}

abbrev payload : BlockResult ℕ → ℕ
payload (failed e) = 0
payload (moved a) = a

module _ {W : Type 0} (ports : Ports W) (view : W → View) (ata : IsAta ports view) (n : ℕ) where
  write_nothing :
      (bytes : Text) (w : W)
      → length (words_of bytes) ≡ 0
      → write_sector ports (handle n) bytes w ≡ w
  unfolding write_sector
  write_nothing [] w h = refl
  write_nothing (lo ∷ []) w h = refl
  write_nothing (lo ∷ hi ∷ rest) w h = absurd (omega (arith, h))

  -- Behind the last word, the drive stores the sector.
  write_sector-storing :
      (bytes : Text) (got : List ℕ) (lba : ℕ) (w : W)
      → (view w).ready ≡ true
      → (view w).transfer ≡ writing lba got
      → length got < 256
      → length got + length (words_of bytes) ≡ 256
      → (let v = view (write_sector ports (handle n) bytes w) in
          (v.transfer ≡ storing lba (got ++ words_of bytes)) × (v.blocks ≡ (view w).blocks))
  unfolding write_sector
  write_sector-storing [] got lba w r t h k = absurd (omega (arith, h, k))
  write_sector-storing (lo ∷ []) got lba w r t h k = absurd (omega (arith, h, k))
  write_sector-storing (lo ∷ hi ∷ rest) got lba w r t h k =
      let word = lo + hi * 256 in
      let w1 = ports.outw 496 word w in
      let e = ata.data_out lba got word w r t in
      elim (Bool-cases (length got == 255)) [
        | inl last ↦
            let none_left : length (words_of rest) ≡ 0 = omega (arith, k, is_255 _ last) in
            let same_world = write_nothing rest w1 none_left in
            (
              ap view_transfer same_world
                  ∙ ap transfer_of e
                  ∙ rw last refl
                  ∙ ap (λ ws. storing lba (got ++ (word ∷ ws))) (sym (no_words rest none_left)),
              ap view_blocks same_world ∙ ap (λ (v : View). v.blocks) e ∙ rw last refl,
            )
        | inr more ↦
            let next : view w1
                ≡ (let v = view w in record v { transfer = writing lba (push got word) }) =
              e ∙ rw more refl in
            let r1 : (view w1).ready ≡ true = ap (λ (v : View). v.ready) next ∙ r in
            let t1 = ap (λ (v : View). v.transfer) next in
            let kept = ap (λ (v : View). v.blocks) next in
            let one = length-append got (word ∷ []) in
            let (over, same_blocks) =
              write_sector-storing rest (push got word) lba w1 r1 t1
                (omega (arith, h, one, not_255 _ more)) (omega (arith, k, one)) in
            (
              over ∙ ap (storing lba) (append_assoc got (word ∷ []) (words_of rest)),
              same_blocks ∙ kept,
            )
      ]
    where
      view_blocks : W → ℕ → List ℕ
      view_blocks w = (view w).blocks

      view_transfer : W → Transfer
      view_transfer w = (view w).transfer

  -- Once a selected drive has shown DRQ for the write command, the words of the sector go to it.
  pub write_sector-sends :
      (lba : ℕ) (bytes : Text) (w w3 : W) (blocks : ℕ → List ℕ)
      → IsSelected ports view ata n lba blocks (view w)
      → length bytes ≡ 512
      → wait_drq ports
          (handle n)
          (delay_400ns ports (handle n) (ports.outb 503 cmd_write_sectors w))
        ≡ (moved tt, w3)
      → (let v = view (write_sector ports (handle n) bytes w3) in
          (v.transfer ≡ storing lba (words_of bytes)) × (v.blocks ≡ blocks))
  write_sector-sends lba bytes w w3 blocks sel size waited =
      let w1 = ports.outb 503 cmd_write_sectors w in
      let e1 : view w1 ≡ start_write (view w) = ata.write_command w sel.opened sel.slave sel.one in
      let w2 = delay_400ns ports (handle n) w1 in
      let steady1 : IsSteady (view w1).transfer =
        subst IsSteady (sym (ap transfer_of e1)) (writing-IsSteady _ _) in
      let (f2, r2, e2, hf2, hr2) = delay_400ns-Settled ports view ata n w1 steady1 in
      let (keep, ready) = wait_drq-Settled ports view ata n w2 w3 waited in
      let (f3, r3, e3, hf3, hr3) = keep (subst IsSteady (sym (ap transfer_of e2)) steady1) in
      let all : view w3 ≡ settle f3 r3 (settle f2 r2 (start_write (view w))) =
        e3 ∙ ap (settle f3 r3) (e2 ∙ ap (settle f2 r2) e1) in
      let t3 : (view w3).transfer ≡ writing lba [] =
        ap (λ (v : View). v.transfer) all ∙ ap (λ l. writing l []) sel.addressed in
      let words = length-words_of 256 bytes size in
      let (over, same_blocks) =
        write_sector-storing bytes [] lba w3 ready t3 (omega arith) (omega (arith, words)) in
      (over, same_blocks ∙ ap (λ (v : View). v.blocks) all ∙ sel.kept)

  send_sector-stores :
      (lba count : ℕ) (buf : Text) (w w' : W) (blocks : ℕ → List ℕ)
      → IsSelected ports view ata n lba blocks (view w)
      → length (take block_size buf) ≡ 512
      → send_sector ports (handle n) buf w ≡ (moved count, w')
      → (count ≡ block_size)
        × ((view w').blocks ≡ stored lba (words_of (take block_size buf)) blocks)
        × ((view w').transfer ≡ idle)
  unfolding send_sector
  send_sector-stores lba count buf w w' blocks sel size h =
      let bytes = take block_size buf in
      let w2 = delay_400ns ports (handle n) (ports.outb 503 cmd_write_sectors w) in
      let (u, w3, waited, rest) = and_then-moved (wait_drq ports (handle n) w2) _ _ w' h in
      let w4 = write_sector ports (handle n) bytes w3 in
      let (over, same_blocks) = write_sector-sends lba bytes w w3 blocks sel size waited in
      let (u5, w5, waited5, last) =
        and_then-moved (wait_not_busy ports (handle n) w4) _ _ w' rest in
      let (opened, put) =
        wait_not_busy-stores ports view ata n lba (words_of bytes) w4 w5 over waited5 in
      let there = sym (ap (λ r. r.1) last) in
      (
        sym (ap (λ r. payload r.0) last),
        ap view_blocks there ∙ put ∙ ap (stored lba (words_of bytes)) same_blocks,
        ap view_transfer there ∙ opened.rest,
      )
    where
      view_blocks : W → ℕ → List ℕ
      view_blocks w = (view w).blocks

      view_transfer : W → Transfer
      view_transfer w = (view w).transfer

  -- A write to a drive that follows the protocol and is at rest.
  pub write_block-stores :
      (lba count : ℕ) (buf : Text) (w w' : W)
      → n ≤ 2 ^ 28
      → (view w).transfer ≡ idle
      → write_block ports (handle n) lba buf w ≡ (moved count, w')
      → (count ≡ block_size)
        × (block_size ≤ length buf)
        × ((view w').blocks ≡ stored lba (words_of (take block_size buf)) (view w).blocks)
        × ((view w').transfer ≡ idle)
  unfolding write_block
  write_block-stores lba count buf w w' small idle_first h = elim (Bool-cases (leb n lba)) [
    | inl e ↦ absurd (failed_not_moved _ _ _ _ (rw e at h))
    | inr e ↦ elim (Bool-cases (ltb (length buf) block_size)) [
      | inl e1 ↦ absurd (failed_not_moved _ _ _ _ (rw (e, e1) at h))
      | inr e1 ↦
          let (u, w1, waited, rest) =
            and_then-moved (wait_not_busy ports (handle n) w) _ _ w' (rw (e, e1) at h) in
          let (opened, same_blocks) =
            wait_not_busy-IsOpen ports view ata n w w1 idle_first waited in
          let low : lba % 2 ^ 32 ≡ lba = omega (arith, leb-false _ _ e, small) in
          let bound : lba % 2 ^ 32 < 2 ^ 28 = omega (arith, leb-false _ _ e, small) in
          let long : block_size ≤ length buf = ltb-false _ _ e1 in
          let size : length (take block_size buf) ≡ 512 =
            omega (arith, length-take block_size buf, long) in
          let sel = select_lba28-IsSelected ports view ata n (lba % 2 ^ 32) w1 bound opened in
          let w2 = select_lba28 ports (handle n) (lba % 2 ^ 32) 1 w1 in
          let at_lba =
            subst (λ l. IsSelected ports view ata n l (view w1).blocks (view w2)) low sel in
          let at_old =
            subst (λ b. IsSelected ports view ata n lba b (view w2)) same_blocks at_lba in
          let (count_lem, put, over) =
            send_sector-stores lba count buf w2 w' (view w).blocks at_old size rest in
          (count_lem, long, put, over)
    ]
  ]
