-- ===== src/Ata/Protocol.antt =====
-- The protocol that the driver of kernel/src/ata.rs relies on: what a drive on the primary bus shows
-- at its ports, with 28-bit addresses. The drive itself is outside.
use willo_main.Prelude.{
  ℕ, ◌+◌, ◌*◌, ◌/◌, ◌%◌, ◌^◌, ◌≡◌, Bool, true, false, List, [], ◌∷◌, ◌==◌, if◌then◌else◌, length,
  push, Text,
}
use willo_main.Ata.{
  Ports, is_set, is_fault, status_bsy, status_drq, cmd_read_sectors, cmd_write_sectors,
}

-- What the drive is doing: nothing, giving the words that are left of a sector, taking those of a
-- sector, or storing a sector of which it has all words.
pub data Transfer : Type 0 where
  idle : Transfer
  reading : List ℕ → Transfer
  writing : ℕ → List ℕ → Transfer
  storing : ℕ → List ℕ → Transfer

-- Whether words are left to be moved, for which the drive sets DRQ.
abbrev pub requests : Transfer → Bool
requests idle = false
requests (reading []) = false
requests (reading (word ∷ words)) = true
requests (writing lba got) = true
requests (storing lba words) = false

-- The registers of the drive, its transfer and its sectors in words. `free`: the status has shown
-- neither BSY nor DRQ since the last command or transfer, and `ready`: it has shown DRQ in this one.
pub record View : Type 0 where
  pub count : ℕ
  pub lo : ℕ
  pub mid : ℕ
  pub hi : ℕ
  pub head : ℕ
  pub free : Bool
  pub ready : Bool
  pub transfer : Transfer
  pub blocks : ℕ → List ℕ

abbrev pub finished : Transfer → Transfer
finished idle = idle
finished (reading words) = reading words
finished (writing lba got) = writing lba got
finished (storing lba words) = idle

abbrev pub committed : Transfer → (ℕ → List ℕ) → ℕ → List ℕ
committed idle blocks = blocks
committed (reading words) blocks = blocks
committed (writing lba got) blocks = blocks
committed (storing lba words) blocks = λ l. if l == lba then words else blocks l

-- A status without BSY, an error or DRQ: what was to be stored is stored.
abbrev pub settled : View → View
settled v = record v {
  free = true;
  transfer = finished v.transfer;
  blocks = committed v.transfer v.blocks;
}

-- A read of the status that gives `s`. While BSY is set the other bits say nothing, and after an
-- error nothing is promised.
abbrev pub poll : ℕ → View → View
poll s v =
    if is_set s status_bsy
    then v
    else if is_fault s
    then v
    else if is_set s status_drq
    then record v { ready = true }
    else settled v

abbrev pub address : View → ℕ
address v = v.lo + v.mid * 2 ^ 8 + v.hi * 2 ^ 16 + (v.head % 16) * 2 ^ 24

abbrev pub start_read : View → View
start_read v = record v { free = false; ready = false; transfer = reading (v.blocks (address v)) }

abbrev pub start_write : View → View
start_write v = record v { free = false; ready = false; transfer = writing (address v) [] }

-- After a word that is read: with the last one the transfer is over.
abbrev pub sent : List ℕ → View → View
sent [] v = record v { free = false; ready = false; transfer = idle }
sent (word ∷ words) v = record v { transfer = reading (word ∷ words) }

-- A word of a sector that is written: after the last one the drive stores the sector.
abbrev pub receive : ℕ → List ℕ → ℕ → View → View
receive lba got word v =
    if length got == 255
    then record v { free = false; ready = false; transfer = storing lba (push got word) }
    else record v { transfer = writing lba (push got word) }

-- The drive takes a register or a command.
pub record IsOpen (v : View) : Type 0 where
  pub free : v.free ≡ true
  pub rest : v.transfer ≡ idle

-- The slave is the selected drive of the bus, as `identify` leaves it. Registers and commands are
-- written to it at rest, once it has shown neither BSY nor DRQ; a command is one with an LBA, of one
-- sector. Data moves once the status has shown DRQ, and DRQ is shown only while words are left to be
-- moved. The drive reacts to a last word before the next read of its status, for which
-- `write_block` leaves no time of its own.
pub record IsAta {W : Type 0} (ports : Ports W) (view : W → View) : Type 0 where
  pub status : (w : W) → view (ports.inb 503 w).1 ≡ poll (ports.inb 503 w).0 (view w)
  pub quiet :
      (w : W)
      → requests (view w).transfer ≡ false
      → is_set (ports.inb 503 w).0 status_bsy ≡ false
      → is_set (ports.inb 503 w).0 status_drq ≡ false
  pub put_count :
      (x : ℕ) (w : W)
      → IsOpen (view w)
      → view (ports.outb 498 x w) ≡ (let v = view w in record v { count = x })
  pub put_lo :
      (x : ℕ) (w : W)
      → IsOpen (view w)
      → view (ports.outb 499 x w) ≡ (let v = view w in record v { lo = x })
  pub put_mid :
      (x : ℕ) (w : W)
      → IsOpen (view w)
      → view (ports.outb 500 x w) ≡ (let v = view w in record v { mid = x })
  pub put_hi :
      (x : ℕ) (w : W)
      → IsOpen (view w)
      → view (ports.outb 501 x w) ≡ (let v = view w in record v { hi = x })
  pub put_head :
      (x : ℕ) (w : W)
      → IsOpen (view w)
      → x / 16 ≡ 15
      → view (ports.outb 502 x w) ≡ (let v = view w in record v { head = x })
  pub read_command :
      (w : W)
      → IsOpen (view w)
      → (view w).head / 16 ≡ 15
      → (view w).count ≡ 1
      → view (ports.outb 503 cmd_read_sectors w) ≡ start_read (view w)
  pub write_command :
      (w : W)
      → IsOpen (view w)
      → (view w).head / 16 ≡ 15
      → (view w).count ≡ 1
      → view (ports.outb 503 cmd_write_sectors w) ≡ start_write (view w)
  pub data_in :
      (word : ℕ) (words : List ℕ) (w : W)
      → (view w).ready ≡ true
      → (view w).transfer ≡ reading (word ∷ words)
      → ((ports.inw 496 w).0 ≡ word) × (view (ports.inw 496 w).1 ≡ sent words (view w))
  pub data_out :
      (lba : ℕ) (got : List ℕ) (word : ℕ) (w : W)
      → (view w).ready ≡ true
      → (view w).transfer ≡ writing lba got
      → view (ports.outw 496 word w) ≡ receive lba got word (view w)

-- The bytes of words, as `read_block` takes them apart.
abbrev pub bytes_of : List ℕ → Text
bytes_of [] = []
bytes_of (word ∷ words) = word % 256 ∷ ((word / 256) % 256 ∷ bytes_of words)
