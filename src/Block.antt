-- ===== src/Block.antt =====
-- kernel/src/block.rs: the interface of a block device. The device's registers and its contents are a
-- state `W`, which every call takes and returns. A block that is read or written is its 512 bytes.
use willo_main.Prelude.{ℕ, Text, length, ◌≡◌, ◌≢◌}

pub data BlockError : Type 0 where
  timeout drive_error out_of_range : BlockError

-- `Result<_, BlockError>`
pub data BlockResult (A : Type 0) : Type 0 where
  failed : BlockError → BlockResult A
  moved : A → BlockResult A

abbrev pub block_size : ℕ
block_size = 512

pub record BlockDevice (W : Type 0) : Type 0 where
  pub num_blocks : W → ℕ
  pub read_block : ℕ → W → BlockResult Text × W
  pub write_block : ℕ → Text → W → BlockResult (Unit {0}) × W

-- A drive whose contents are `block`: a read that succeeds gives a block as it is, a write that
-- succeeds replaces its block, and neither changes another one.
pub record IsDisk {W : Type 0} (drive : BlockDevice W) (block : W → ℕ → Text) : Type 0 where
  pub reads :
      (lba : ℕ) (bytes : Text) (w w' : W)
      → drive.read_block lba w ≡ (moved bytes, w')
      → (bytes ≡ block w lba) × ((l : ℕ) → block w' l ≡ block w l)
  pub writes :
      (lba : ℕ) (bytes : Text) (w w' : W)
      → drive.write_block lba bytes w ≡ (moved tt, w')
      → (block w' lba ≡ bytes) × ((l : ℕ) → l ≢ lba → block w' l ≡ block w l)

-- What a failing call of a drive tells: `E` holds, which is `⊥` on a drive that never fails. A
-- failing read changes no block, a failing write at most its own, whose size it keeps.
pub record FailsOnlyIf {W : Type 0} (E : Type 0) (drive : BlockDevice W) (block : W → ℕ → Text)
    : Type 0 where
  pub read_fails :
      (lba : ℕ) (e : BlockError) (w w' : W)
      → drive.read_block lba w ≡ (failed e, w')
      → E × ((l : ℕ) → block w' l ≡ block w l)
  pub write_fails :
      (lba : ℕ) (bytes : Text) (e : BlockError) (w w' : W)
      → drive.write_block lba bytes w ≡ (failed e, w')
      → E
        × (length (block w' lba) ≡ length (block w lba))
        × ((l : ℕ) → l ≢ lba → block w' l ≡ block w l)
