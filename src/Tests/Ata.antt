-- ===== src/Tests/Ata.antt =====
-- Sectors of a small drive (kernel/src/ata.rs): its state is what it shows at its ports.
use willo_main.Prelude.{
  ℕ, Bool, ◌≡◌, ◌≤◌, ap, refl, true, false, [], ◌∷◌, Text, ◌==◌, if◌then◌else◌, replicate, length,
  arith, take, inl,
}
use willo_main.Fs.{overwrite}
use willo_main.Block.{moved, block_size}
use willo_main.Ata.{Ports, poll_limit}
use willo_main.Ata.Protocol.{
  View, IsAta, Transfer, idle, reading, writing, storing, requests, sent, poll, start_read,
  start_write, receive, bytes_of,
}
use willo_main.Ata.Settled.{handle}
use willo_main.Ata.Drive.{read_block, write_block}
use willo_main.Ata.Words.{stored, words_of}
use willo_main.Ata.Writes.{write_block-stores}
use willo_main.Ata.Prompt.{IsPrompt, read_block_returns, write_block_returns}

-- Ready, with DRQ while words are left to be moved.
abbrev status_of : Bool → ℕ
status_of true = 72
status_of false = 64

abbrev next_word : View → Transfer → ℕ × View
next_word v (reading (word ∷ words)) = (word, sent words v)
next_word v (reading []) = (0, v)
next_word v idle = (0, v)
next_word v (writing lba got) = (0, v)
next_word v (storing lba words) = (0, v)

abbrev take_word : ℕ → View → Transfer → View
take_word x v (writing lba got) = receive lba got x v
take_word x v (reading words) = v
take_word x v idle = v
take_word x v (storing lba words) = v

abbrev put : ℕ → ℕ → View → View
put p x v =
    if p == 498
    then record v { count = x }
    else if p == 499
    then record v { lo = x }
    else if p == 500
    then record v { mid = x }
    else if p == 501
    then record v { hi = x }
    else if p == 502
    then record v { head = x }
    else if x == 32
    then start_read v
    else start_write v

abbrev ports : Ports View
ports = record {
  inb = λ p v. let s = status_of (requests v.transfer) in (s, poll s v);
  inw = λ p v. next_word v v.transfer;
  outb = put;
  outw = λ p x v. take_word x v v.transfer;
}

abbrev shown : View → View
shown v = v

ports-IsAta : IsAta ports shown
ports-IsAta = record {
  status = λ w. refl;
  quiet = λ w q b. rw q refl;
  put_count = λ x w h. refl;
  put_lo = λ x w h. refl;
  put_mid = λ x w h. refl;
  put_hi = λ x w h. refl;
  put_head = λ x w h s. refl;
  read_command = λ w o s c. refl;
  write_command = λ w o s c. refl;
  data_in = λ word words w r t. rw t (refl, refl);
  data_out = λ lba got word w r t. rw t refl;
}

ports-IsPrompt : IsPrompt ports shown
unfolding poll_limit
ports-IsPrompt = record { frees = λ w q. inl (rw q refl); serves = λ w q. inl (rw q refl) }

abbrev drive : View
drive = record {
  count = 0;
  lo = 0;
  mid = 0;
  hi = 0;
  head = 0;
  free = true;
  ready = false;
  transfer = idle;
  blocks = λ l. replicate 256 l;
}

abbrev bytes : Text
bytes = replicate 512 7

read_block_returns_example :
    (w' : View) × (read_block ports (handle 4) 3 bytes drive
      ≡ (moved (block_size, overwrite (bytes_of (drive.blocks 3)) bytes), w'))
    × (w'.blocks ≡ drive.blocks)
    × (w'.transfer ≡ idle)
read_block_returns_example =
    read_block_returns ports shown ports-IsAta ports-IsPrompt 4 3 bytes drive (omega arith)
      (omega arith) (omega arith) refl refl

abbrev long_enough : block_size ≤ length bytes
long_enough = omega arith

-- The write of `bytes` to the sector 3, and the state that it leaves.
abbrev written : (w' : View) × (write_block ports (handle 4) 3 bytes drive ≡ (moved block_size, w'))
written =
    write_block_returns ports shown ports-IsAta ports-IsPrompt 4 3 bytes drive (omega arith)
      (omega arith) long_enough refl

write_block-stores_example :
    (block_size ≡ block_size)
    × (block_size ≤ length bytes)
    × (written.0.blocks ≡ stored 3 (words_of (take block_size bytes)) drive.blocks)
    × (written.0.transfer ≡ idle)
write_block-stores_example =
    write_block-stores ports shown ports-IsAta 4 3 block_size bytes drive written.0 (omega arith)
      refl written.1

sector_size : length (written.0.blocks 3) ≡ 256
sector_size = ap (λ b. length (b 3)) write_block-stores_example.2

abbrev read_back :
    (w' : View) × (read_block ports (handle 4) 3 bytes written.0
      ≡ (moved (block_size, overwrite (bytes_of (written.0.blocks 3)) bytes), w'))
    × (w'.blocks ≡ written.0.blocks)
    × (w'.transfer ≡ idle)
read_back =
    read_block_returns ports shown ports-IsAta ports-IsPrompt 4 3 bytes written.0 (omega arith)
      (omega arith) long_enough write_block-stores_example.3 sector_size
