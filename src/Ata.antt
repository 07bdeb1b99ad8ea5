-- ===== src/Ata.antt =====
-- kernel/src/ata.rs: the polled driver of the data disk, over the ports of the machine. What a port
-- does is outside: `Ports` holds the four instructions, as functions of the machine's state `W`.
pub mod Drive
pub mod Polls
pub mod Protocol
pub mod Prompt
pub mod Reads
pub mod Settled
pub mod Words
pub mod Writes
use willo_main.Prelude.{
  ℕ, zero, suc, ◌+◌, ◌*◌, ◌/◌, ◌%◌, ◌^◌, Bool, true, false, ◌||◌, not, List, [], ◌∷◌, Text, leb,
  ltb, ◌==◌, if◌then◌else◌, length,
}
use willo_main.Fs.{overwrite}
use willo_main.Block.{
  BlockError, timeout, drive_error, out_of_range, BlockResult, failed, moved, block_size,
}

-- `Port::read` and `Port::write` of a byte and of a word, at a port number.
pub record Ports (W : Type 0) : Type 0 where
  pub inb : ℕ → W → ℕ × W
  pub inw : ℕ → W → ℕ × W
  pub outb : ℕ → ℕ → W → W
  pub outw : ℕ → ℕ → W → W

abbrev primary_base : ℕ
primary_base = 496

abbrev primary_ctrl : ℕ
primary_ctrl = 1014

abbrev pub status_err : ℕ
status_err = 1

abbrev pub status_drq : ℕ
status_drq = 8

abbrev pub status_df : ℕ
status_df = 32

abbrev pub status_bsy : ℕ
status_bsy = 128

abbrev pub cmd_read_sectors : ℕ
cmd_read_sectors = 32

abbrev pub cmd_write_sectors : ℕ
cmd_write_sectors = 48

abbrev pub cmd_identify : ℕ
cmd_identify = 236

unfoldable pub poll_limit : ℕ
poll_limit = 100000

-- `AtaDrive`; a port is its number.
pub record AtaDrive : Type 0 where
  pub data_port : ℕ
  pub sector_count : ℕ
  pub lba_lo : ℕ
  pub lba_mid : ℕ
  pub lba_hi : ℕ
  pub drive_head : ℕ
  pub status : ℕ
  pub command : ℕ
  pub control : ℕ
  pub sectors : ℕ

abbrev pub new_primary_slave : AtaDrive
new_primary_slave = record {
  data_port = primary_base + 0;
  sector_count = primary_base + 2;
  lba_lo = primary_base + 3;
  lba_mid = primary_base + 4;
  lba_hi = primary_base + 5;
  drive_head = primary_base + 6;
  status = primary_base + 7;
  command = primary_base + 7;
  control = primary_ctrl;
  sectors = 0;
}

-- `s & mask != 0`, for a mask of one bit.
abbrev pub is_set : ℕ → ℕ → Bool
is_set s mask = (s / mask) % 2 == 1

abbrev pub is_fault : ℕ → Bool
is_fault s = is_set s status_err || is_set s status_df

-- The `?` operator on a call that goes through the ports.
abbrev pub and_then :
    {W A B : Type 0} → BlockResult A × W → (W → BlockResult B × W) → BlockResult B × W
and_then (failed e, w) next = (failed e, w)
and_then (moved a, w) next = next w

module _ {W : Type 0} (ports : Ports W) where
  unfoldable pub delay_400ns : AtaDrive → W → W
  delay_400ns d w = let poll = λ (w : W). (ports.inb d.status w).1 in poll (poll (poll (poll w)))

  -- The loop of `wait_not_busy`, for the rounds left.
  unfoldable pub poll_not_busy : AtaDrive → ℕ → W → BlockResult (Unit {0}) × W
  poll_not_busy d zero w = (failed timeout, w)
  poll_not_busy d (suc rounds) w =
      let (s, w1) = ports.inb d.status w in
      let rest = poll_not_busy d rounds w1 in
      if is_set s status_bsy
      then rest
      else if is_fault s
      then (failed drive_error, w1)
      else (moved tt, w1)

  unfoldable pub wait_not_busy : AtaDrive → W → BlockResult (Unit {0}) × W
  unfolding poll_not_busy
  wait_not_busy d w = poll_not_busy d poll_limit w

  -- The loop of `wait_drq`.
  unfoldable pub poll_drq : AtaDrive → ℕ → W → BlockResult (Unit {0}) × W
  poll_drq d zero w = (failed timeout, w)
  poll_drq d (suc rounds) w =
      let (s, w1) = ports.inb d.status w in
      let rest = poll_drq d rounds w1 in
      if is_set s status_bsy
      then rest
      else if is_fault s
      then (failed drive_error, w1)
      else if is_set s status_drq
      then (moved tt, w1)
      else rest

  unfoldable pub wait_drq : AtaDrive → W → BlockResult (Unit {0}) × W
  unfolding poll_drq
  wait_drq d w = poll_drq d poll_limit w

  -- `0xF0 | x` of a nibble `x` is a sum; a byte is what `as u8` keeps.
  unfoldable pub select_lba28 : AtaDrive → ℕ → ℕ → W → W
  unfolding delay_400ns
  select_lba28 d lba count w =
      let w1 = delay_400ns d (ports.outb d.drive_head (240 + (lba / 2 ^ 24) % 16) w) in
      let w2 = ports.outb d.sector_count count w1 in
      let w3 = ports.outb d.lba_lo (lba % 256) w2 in
      let w4 = ports.outb d.lba_mid ((lba / 2 ^ 8) % 256) w3 in
      ports.outb d.lba_hi ((lba / 2 ^ 16) % 256) w4

  -- The loop of `read_block`, for the chunks of two bytes left.
  unfoldable pub read_sector : AtaDrive → ℕ → W → Text × W
  read_sector d zero w = ([], w)
  read_sector d (suc chunks) w =
      let (word, w1) = ports.inw d.data_port w in
      let (rest, w2) = read_sector d chunks w1 in (word % 256 ∷ ((word / 256) % 256 ∷ rest), w2)

  -- The loop of `write_block`, over the chunks of two bytes; `lo | hi << 8` of two bytes is a sum.
  unfoldable pub write_sector : AtaDrive → Text → W → W
  write_sector d [] w = w
  write_sector d (lo ∷ []) w = w
  write_sector d (lo ∷ hi ∷ rest) w = write_sector d rest (ports.outw d.data_port (lo + hi * 256) w)
