-- ===== src/Ata/Prompt.antt =====
-- Drives that answer within the polling limit of kernel/src/ata.rs.
use willo_main.Prelude.{
  ℕ, zero, suc, ◌<◌, ◌≤◌, ◌^◌, ◌%◌, ◌≡◌, ◌⊎◌, inl, inr, refl, sym, ◌∙◌, ap, Bool, true, false, ◌||◌,
  ◌&&◌, not, Text, List, [], ◌∷◌, take, length, length-take, subst, leb, ltb, arith,
}
use willo_main.Fs.{overwrite}
use willo_main.Block.{moved, block_size}
use willo_main.Ata.{
  Ports, is_set, is_fault, status_bsy, status_drq, poll_not_busy, poll_drq, wait_not_busy, wait_drq,
  delay_400ns, select_lba28, write_sector, read_sector, poll_limit, cmd_read_sectors,
  cmd_write_sectors,
}
use willo_main.Ata.Protocol.{
  View, Transfer, IsAta, idle, requests, reading, writing, address, bytes_of,
}
use willo_main.Ata.Settled.{handle, transfer_of, IsSteady, reading-IsSteady, writing-IsSteady}
use willo_main.Ata.Polls.{wait_not_busy-IsOpen, delay_400ns-Settled}
use willo_main.Ata.Reads.{IsSelected, select_lba28-IsSelected, read_block-reads}
use willo_main.Ata.Writes.{write_sector-sends}
use willo_main.Ata.Drive.{read_block, write_block, receive_sector, send_sector}

module _ {W : Type 0} (ports : Ports W) where
  -- Within so many reads, the status shows what the test wants, and no read before that ends a wait.
  abbrev pub Shows : (ℕ → Bool) → (ℕ → Bool) → ℕ → W → Type 0
  Shows done going zero w = ⊥
  Shows done going (suc k) w =
      let (s, w1) = ports.inb 503 w in (done s ≡ true) ⊎ ((going s ≡ true) × Shows done going k w1)

abbrev pub is_free : ℕ → Bool
is_free s = not (is_set s status_bsy) && not (is_fault s)

abbrev pub is_busy : ℕ → Bool
is_busy s = is_set s status_bsy

abbrev pub has_data : ℕ → Bool
has_data s = is_free s && is_set s status_drq

abbrev pub has_no_data : ℕ → Bool
has_no_data s = is_busy s || (is_free s && not (is_set s status_drq))

-- A drive that has no error answers: without BSY while no words are left to be moved, and with DRQ
-- while some are.
pub record IsPrompt {W : Type 0} (ports : Ports W) (view : W → View) : Type 0 where
  pub frees :
      (w : W) → requests (view w).transfer ≡ false → Shows ports is_free is_busy poll_limit w
  pub serves :
      (w : W) → requests (view w).transfer ≡ true → Shows ports has_data has_no_data poll_limit w

requests-reading : (k : ℕ) (words : List ℕ) → length words ≡ suc k → requests (reading words) ≡ true
requests-reading k [] h = absurd (omega (arith, h))
requests-reading k (word ∷ words) h = refl

leb_below : (a b : ℕ) → a < b → leb b a ≡ false
leb_below a b h = ground (arith, h)

ltb_above : (a b : ℕ) → b ≤ a → ltb a b ≡ false
ltb_above a b h = ground (arith, h)

free_bits : (b f : Bool) → (not b && not f) ≡ true → (b ≡ false) × (f ≡ false)
free_bits b f h = ground (arith, h)

data_bits : (b f d : Bool) → ((not b && not f) && d) ≡ true → (b ≡ false) × (f ≡ false) × (d ≡ true)
data_bits b f d h = ground (arith, h)

wait_bits :
    (b f d : Bool)
    → (b || ((not b && not f) && not d)) ≡ true
    → (b ≡ true) ⊎ ((b ≡ false) × (f ≡ false) × (d ≡ false))
wait_bits true f d h = inl refl
wait_bits false f d h = inr (ground (arith, h))

module _ {W : Type 0} (ports : Ports W) (view : W → View) (n : ℕ) where
  poll_not_busy_returns :
      (k : ℕ) (w : W)
      → Shows ports is_free is_busy k w
      → (w' : W) × (poll_not_busy ports (handle n) k w ≡ (moved tt, w'))
  unfolding poll_not_busy
  poll_not_busy_returns zero w h = absurd h
  poll_not_busy_returns (suc k) w (inl h) =
      let (b, f) = free_bits _ _ h in ((ports.inb 503 w).1, rw (b, f) refl)
  poll_not_busy_returns (suc k) w (inr (b, h)) = rw b (poll_not_busy_returns k _ h)

  poll_drq_returns :
      (k : ℕ) (w : W)
      → Shows ports has_data has_no_data k w
      → (w' : W) × (poll_drq ports (handle n) k w ≡ (moved tt, w'))
  unfolding poll_drq
  poll_drq_returns zero w h = absurd h
  poll_drq_returns (suc k) w (inl h) =
      let s = (ports.inb 503 w).0 in
      let (b, f, d) = data_bits (is_set s status_bsy) (is_fault s) (is_set s status_drq) h in
      ((ports.inb 503 w).1, rw (b, f, d) refl)
  poll_drq_returns (suc k) w (inr (b, h)) =
      let s = (ports.inb 503 w).0 in
      elim (wait_bits (is_set s status_bsy) (is_fault s) (is_set s status_drq) b) [
        | inl busy ↦ rw busy (poll_drq_returns k _ h)
        | inr (u, f, d) ↦ rw (u, f, d) (poll_drq_returns k _ h)
      ]

  wait_not_busy_returns :
      IsPrompt ports view
      → (w : W) → requests (view w).transfer ≡ false
      → (w' : W) × (wait_not_busy ports (handle n) w ≡ (moved tt, w'))
  unfolding wait_not_busy
  wait_not_busy_returns p w h = poll_not_busy_returns poll_limit w (p.frees w h)

  wait_drq_returns :
      IsPrompt ports view
      → (w : W) → requests (view w).transfer ≡ true
      → (w' : W) × (wait_drq ports (handle n) w ≡ (moved tt, w'))
  unfolding wait_drq
  wait_drq_returns p w h = poll_drq_returns poll_limit w (p.serves w h)

module _ {W : Type 0} (ports : Ports W) (view : W → View) (ata : IsAta ports view)
    (prompt : IsPrompt ports view) (n : ℕ) where
  -- After a command that opens a transfer of words, the wait for DRQ ends.
  command_returns :
      (t : Transfer) (w1 : W)
      → (view w1).transfer ≡ t
      → IsSteady t
      → requests t ≡ true
      → (w3 : W) × (wait_drq ports (handle n) (delay_400ns ports (handle n) w1) ≡ (moved tt, w3))
  command_returns t w1 e1 steady asks =
      let (f, r, e2, hf, hr) =
        delay_400ns-Settled ports view ata n w1 (subst IsSteady (sym e1) steady) in
      wait_drq_returns ports view n prompt (delay_400ns ports (handle n) w1)
        (ap requests (ap transfer_of e2 ∙ e1) ∙ asks)

  receive_sector_returns :
      (lba : ℕ) (blocks : ℕ → List ℕ) (buf : Text) (w : W)
      → IsSelected ports view ata n lba blocks (view w)
      → length (blocks lba) ≡ 256
      → (a : ℕ × Text) × (w' : W) × (receive_sector ports (handle n) buf w ≡ (moved a, w'))
  unfolding receive_sector
  receive_sector_returns lba blocks buf w sel size =
      let w1 = ports.outb 503 cmd_read_sectors w in
      let t1 : (view w1).transfer ≡ reading (blocks lba) =
        ap transfer_of (ata.read_command w sel.opened sel.slave sel.one)
        ∙ ap reading (ap (λ b. b (address (view w))) sel.kept ∙ ap blocks sel.addressed) in
      let (w3, waited) =
        command_returns (reading (blocks lba)) w1 t1 (reading-IsSteady _)
          (requests-reading 255 _ size) in
      let (bytes, w4) = read_sector ports (handle n) 256 w3 in
      ((block_size, overwrite bytes buf), w4, rw waited refl)

  -- On a drive that follows the protocol of its ports, is at rest, has at most 2^28 sectors and
  -- answers every wait within the polling limit and without an error, read_block of a sector
  -- inside the drive, of 256 words, into a buffer of at least 512 bytes succeeds with the bytes of
  -- the sector at the start of the buffer, changes no sector, and leaves the drive at rest.
  pub read_block_returns :
      (lba : ℕ) (buf : Text) (w : W)
      → n ≤ 2 ^ 28
      → lba < n
      → block_size ≤ length buf
      → (view w).transfer ≡ idle
      → length ((view w).blocks lba) ≡ 256
      → (w' : W) × (read_block ports (handle n) lba buf w
          ≡ (moved (block_size, overwrite (bytes_of ((view w).blocks lba)) buf), w'))
        × ((view w').blocks ≡ (view w).blocks)
        × ((view w').transfer ≡ idle)
  unfolding read_block
  read_block_returns lba buf w small inside long rest size =
      let (w1, waited) = wait_not_busy_returns ports view n prompt w (ap requests rest) in
      let (opened, same_blocks) = wait_not_busy-IsOpen ports view ata n w w1 rest waited in
      let bound : lba % 2 ^ 32 < 2 ^ 28 = omega (arith, inside, small) in
      let w2 = select_lba28 ports (handle n) (lba % 2 ^ 32) 1 w1 in
      let sel = select_lba28-IsSelected ports view ata n (lba % 2 ^ 32) w1 bound opened in
      let low : lba % 2 ^ 32 ≡ lba = omega (arith, inside, small) in
      let same_size : length ((view w1).blocks (lba % 2 ^ 32)) ≡ 256 =
        ap length (ap (λ b. b (lba % 2 ^ 32)) same_blocks ∙ ap (view w).blocks low) ∙ size in
      let ((c, b), w', got) =
        receive_sector_returns (lba % 2 ^ 32) (view w1).blocks buf w2 sel same_size in
      let e = leb_below _ _ inside in
      let e1 = ltb_above _ _ long in
      let run : read_block ports (handle n) lba buf w ≡ (moved (c, b), w') =
        rw (e, e1, waited) got in
      let (count_lem, bytes_lem, kept, over) =
        read_block-reads ports view ata n lba c buf b w w' small rest size run in
      (w', run ∙ rw (count_lem, bytes_lem) refl, kept, over)

  send_sector_returns :
      (lba : ℕ) (blocks : ℕ → List ℕ) (buf : Text) (w : W)
      → IsSelected ports view ata n lba blocks (view w)
      → length (take block_size buf) ≡ 512
      → (w' : W) × (send_sector ports (handle n) buf w ≡ (moved block_size, w'))
  unfolding send_sector
  send_sector_returns lba blocks buf w sel size =
      let t1 = ap transfer_of (ata.write_command w sel.opened sel.slave sel.one) in
      let (w3, waited) =
        command_returns (writing (address (view w)) []) (ports.outb 503 cmd_write_sectors w) t1
          (writing-IsSteady _ _) refl in
      let bytes = take block_size buf in
      let (over, same_blocks) =
        write_sector-sends ports view ata n lba bytes w w3 blocks sel size waited in
      let (w5, done) =
        wait_not_busy_returns ports view n prompt (write_sector ports (handle n) bytes w3)
          (ap requests over) in
      (w5, rw (waited, done) refl)

  -- A write to a drive that answers in time and is at rest.
  pub write_block_returns :
      (lba : ℕ) (buf : Text) (w : W)
      → n ≤ 2 ^ 28
      → lba < n
      → block_size ≤ length buf
      → (view w).transfer ≡ idle
      → (w' : W) × (write_block ports (handle n) lba buf w ≡ (moved block_size, w'))
  unfolding write_block
  write_block_returns lba buf w small inside long rest =
      let (w1, waited) = wait_not_busy_returns ports view n prompt w (ap requests rest) in
      let (opened, same_blocks) = wait_not_busy-IsOpen ports view ata n w w1 rest waited in
      let bound : lba % 2 ^ 32 < 2 ^ 28 = omega (arith, inside, small) in
      let w2 = select_lba28 ports (handle n) (lba % 2 ^ 32) 1 w1 in
      let sel = select_lba28-IsSelected ports view ata n (lba % 2 ^ 32) w1 bound opened in
      let size : length (take block_size buf) ≡ 512 =
        omega (arith, length-take block_size buf, long) in
      let (w', put) = send_sector_returns (lba % 2 ^ 32) (view w1).blocks buf w2 sel size in
      let e = leb_below _ _ inside in let e1 = ltb_above _ _ long in (w', rw (e, e1, waited) put)
