-- ===== src/Ata/Drive.antt =====
-- kernel/src/ata.rs: `identify`, `init`, and the calls of the `BlockDevice` trait.
use willo_main.Prelude.{
  ℕ, zero, suc, ◌+◌, ◌*◌, ◌%◌, ◌^◌, Bool, true, List, [], ◌∷◌, Text, leb, ltb, ◌==◌, if◌then◌else◌,
  length, get_or, take,
}
use willo_main.Fs.{overwrite}
use willo_main.Block.{drive_error, out_of_range, BlockResult, failed, moved, block_size}
use willo_main.Ata.{
  Ports, AtaDrive, cmd_read_sectors, cmd_write_sectors, cmd_identify, and_then, delay_400ns,
  wait_not_busy, wait_drq, select_lba28, read_sector, write_sector,
}

-- `INITIALISED` and `DRIVE`
pub record Driver : Type 0 where
  pub initialised : Bool
  pub drive : AtaDrive

abbrev set_sectors :
    {W : Type 0} → AtaDrive → BlockResult ℕ × W → BlockResult (Unit {0}) × AtaDrive × W
set_sectors d (failed e, w) = (failed e, d, w)
set_sectors d (moved n, w) = (moved tt, record d { sectors = n }, w)

abbrev store :
    {W : Type 0}
    → Driver
    → BlockResult (Unit {0}) × AtaDrive × W
    → BlockResult (Unit {0}) × Driver × W
store s (failed e, d, w) = (failed e, record s { drive = d }, w)
store s (moved u, d, w) = (moved tt, record { initialised = true; drive = d }, w)

module _ {W : Type 0} (ports : Ports W) where
  unfoldable pub read_words : AtaDrive → ℕ → W → List ℕ × W
  read_words d zero w = ([], w)
  read_words d (suc n) w =
      let (word, w1) = ports.inw d.data_port w in
      let (rest, w2) = read_words d n w1 in (word ∷ rest, w2)

  -- The words 60 and 61 of the answer: the number of sectors.
  abbrev sectors_of : List ℕ → ℕ
  sectors_of words = get_or words 60 0 + get_or words 61 0 * 2 ^ 16

  -- The registers that are written before the first read of the status.
  abbrev ask : AtaDrive → W → W
  ask d w =
      let w1 = ports.outb d.control 2 w in
      let w2 = delay_400ns ports d (ports.outb d.drive_head 176 w1) in
      let w3 = ports.outb d.sector_count 0 w2 in
      let w4 = ports.outb d.lba_lo 0 w3 in
      let w5 = ports.outb d.lba_mid 0 w4 in
      let w6 = ports.outb d.lba_hi 0 w5 in
      delay_400ns ports d (ports.outb d.command cmd_identify w6)

  abbrev answer : AtaDrive → W → BlockResult ℕ × W
  answer d w =
      and_then (wait_drq ports d w)
        (λ w. let (words, w1) = read_words d 256 w in (moved (sectors_of words), w1))

  -- `lba_hi` is read when `lba_mid` gives 0.
  abbrev answer_of_ata : AtaDrive → W → BlockResult ℕ × W
  answer_of_ata d w =
      let (mid, w1) = ports.inb d.lba_mid w in
      if mid == 0
      then (let (hi, w2) = ports.inb d.lba_hi w1 in
          if hi == 0 then answer d w2 else (failed drive_error, w2))
      else (failed drive_error, w1)

  -- `identify_inner`, up to the field that it fills.
  unfoldable pub identify_inner : AtaDrive → W → BlockResult ℕ × W
  unfolding delay_400ns wait_not_busy wait_drq read_words
  identify_inner d w =
      let (s, w1) = ports.inb d.status (ask d w) in
      if s == 0
      then (failed drive_error, w1)
      else and_then (wait_not_busy ports d w1) (answer_of_ata d)

  unfoldable pub identify : AtaDrive → W → BlockResult (Unit {0}) × AtaDrive × W
  unfolding identify_inner
  identify d w = set_sectors d (identify_inner d w)

  unfoldable pub init : Driver → W → BlockResult (Unit {0}) × Driver × W
  unfolding identify
  init s w = if s.initialised then (moved tt, s, w) else store s (identify s.drive w)

  abbrev pub num_blocks : AtaDrive → ℕ
  num_blocks d = d.sectors

  -- What `read_block` does once the drive is selected: the count and the caller's buffer.
  unfoldable pub receive_sector : AtaDrive → Text → W → BlockResult (ℕ × Text) × W
  unfolding delay_400ns wait_drq read_sector
  receive_sector d buf w =
      and_then (wait_drq ports d (delay_400ns ports d (ports.outb d.command cmd_read_sectors w)))
        (λ w.
          let (bytes, w1) = read_sector ports d 256 w in
          (moved (block_size, overwrite bytes buf), w1))

  unfoldable pub read_block : AtaDrive → ℕ → Text → W → BlockResult (ℕ × Text) × W
  unfolding wait_not_busy select_lba28 receive_sector
  read_block d lba buf w =
      if leb d.sectors lba
      then (failed out_of_range, w)
      else if ltb (length buf) block_size
      then (failed out_of_range, w)
      else and_then (wait_not_busy ports d w)
          (λ w. receive_sector d buf (select_lba28 ports d (lba % 2 ^ 32) 1 w))

  -- What `write_block` does once the drive is selected.
  unfoldable pub send_sector : AtaDrive → Text → W → BlockResult ℕ × W
  unfolding delay_400ns wait_drq wait_not_busy write_sector
  send_sector d buf w =
      and_then (wait_drq ports d (delay_400ns ports d (ports.outb d.command cmd_write_sectors w)))
        (λ w.
          and_then (wait_not_busy ports d (write_sector ports d (take block_size buf) w))
            (λ w. (moved block_size, w)))

  unfoldable pub write_block : AtaDrive → ℕ → Text → W → BlockResult ℕ × W
  unfolding wait_not_busy select_lba28 send_sector
  write_block d lba buf w =
      if leb d.sectors lba
      then (failed out_of_range, w)
      else if ltb (length buf) block_size
      then (failed out_of_range, w)
      else and_then (wait_not_busy ports d w)
          (λ w. send_sector d buf (select_lba28 ports d (lba % 2 ^ 32) 1 w))
