-- ===== src/Boot/Root.antt =====
-- The file system at `/` after boot (kernel/src/fs/mod.rs, `mount_root` and `resolve`).
use willo_main.Prelude.{◌≡◌, ◌⊎◌, Option, none, some, Text}
use willo_main.Fs.{FileSystem, io}
use willo_main.Block.{moved}
use willo_main.Fat.{FatFs}
use willo_main.Fat.Io.{Io, raise, ret}
use willo_main.Fat.Chain.{parse_bpb}
use willo_main.Vfs.{Vfs}
use willo_main.Boot.{Machine, fallback}

module _ {W : Type 0} (machine : Machine W) where
  -- The drive starts and its first sector describes a volume that the kernel can read.
  pub record HasVolume (w : W) (v : FatFs) : Type 0 where
    pub started : W
    pub left : W
    pub sector : Text
    pub starts : machine.ata_init w ≡ (moved tt, started)
    pub reads : machine.devices.drive.read_block 0 started ≡ (moved sector, left)
    pub described : parse_bpb sector ≡ some v

  -- The file system of the volume on the drive, and without one the ramfs.
  abbrev pub IsRoot : W → FileSystem W → Type 0
  IsRoot w fs =
      ((v : FatFs) × HasVolume w v × (fs ≡ machine.fat v))
      ⊎ ((¬ ((v : FatFs) × HasVolume w v)) × (fs ≡ fallback machine))

  abbrev chosen : Option FatFs → Io W FatFs
  chosen o = elim o [ none ↦ raise io | some v ↦ ret v ]

  abbrev after : Text → Io W FatFs
  after sector = chosen (parse_bpb sector)

  -- The root over the fields that the boot sector gives.
  abbrev root_over : Option FatFs → FileSystem W
  root_over none = fallback machine
  root_over (some v) = machine.fat v
