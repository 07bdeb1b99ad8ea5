-- ===== src/Boot.antt =====
-- kernel/src/fs/mod.rs: `mount_root`, which builds the mount table at boot. The drive's start, the
-- serial log and the devices are outside; the file system of a FAT volume is a parameter, since its
-- methods (kernel/src/fs/fat.rs) end only on volumes whose chains do.
pub mod Scratch
pub mod Root
use willo_main.Prelude.{
  ℕ, Bool, Option, none, some, List, [], ◌∷◌, ◌++◌, ◌≡◌, refl, map, Text, codes, same, arith, leb,
  inl, inr,
}
use willo_main.Path.{canonical_prefix, starts_with_slash}
use willo_main.Path.Prefix.{IsStored}
use willo_main.Fs.{FsError, FileSystem, Result, ok, err}
use willo_main.Block.{
  BlockDevice, BlockError, timeout, drive_error, out_of_range, BlockResult, failed, moved,
}
use willo_main.Fat.{FatFs}
use willo_main.Fat.Io.{Outcome, fail, done, unended}
use willo_main.Fat.Chain.{mount_volume}
use willo_main.Vfs.{Vfs, Mount, mount, new, mounted}
use willo_main.Vfs.Table.{IsValid, new-IsValid, mount-IsValid}
use willo_main.Tmp.{tmpfs}
use willo_main.Tmp as Tmp
use willo_main.Ram.{ramfs, seed}
use willo_main.Dev.{Devices, devfs}
use willo_main.Shell.Lines.{debug_name}

-- `{:?}` of a `BlockError`.
abbrev block_error_name : BlockError → Text
block_error_name timeout = codes "Timeout"
block_error_name drive_error = codes "DriveError"
block_error_name out_of_range = codes "OutOfRange"

-- What `mount_root` uses: `ata::init`, the serial log, the devices, the tick counter, the tree of the
-- tmpfs in the state, and the file system of a volume.
pub record Machine (W : Type 0) : Type 0 where
  pub ata_init : W → BlockResult (Unit {0}) × W
  pub log : Text → W → W
  pub devices : Devices W
  pub ticks : W → ℕ
  pub tree : W → Tmp.Node
  pub put_tree : Tmp.Node → W → W
  pub fat : FatFs → FileSystem W

-- A mount at boot; `none` is a panic of `expect`.
abbrev expect : {W : Type 0} → Result (Unit {0}) × Vfs W → Option (Vfs W)
expect (ok u, v) = some v
expect (err e, v) = none

abbrev and_mount : {W : Type 0} → Option (Vfs W) → Text → FileSystem W → Option (Vfs W)
and_mount none prefix fs = none
and_mount (some v) prefix fs = expect (mount v prefix fs)

module _ {W : Type 0} (machine : Machine W) where
  abbrev pub fallback : FileSystem W
  fallback = ramfs seed machine.ticks

  -- The root after the attempt to mount the volume; a loop that does not end is not among its
  -- outcomes, since `mount` reads one sector.
  abbrev pub of_volume : Outcome FatFs × W → FileSystem W × W
  of_volume (done volume, w) =
      (machine.fat volume, machine.log (codes "[fs] mounted FAT32 on primary IDE slave") w)
  of_volume (fail e, w) = (
    fallback,
    machine.log
        (codes "[fs] FAT mount failed (" ++ (debug_name e ++ codes "); falling back to ramfs")) w,
  )
  of_volume (unended, w) = (fallback, w)

  abbrev pub of_disk : BlockResult (Unit {0}) × W → FileSystem W × W
  of_disk (moved u, w) = of_volume (mount_volume machine.devices.drive w)
  of_disk (failed e, w) = (
    fallback,
    machine.log
        (codes "[fs] no data disk on primary IDE slave ("
          ++ (block_error_name e ++ codes "); using ramfs"))
        w,
  )

  -- The file system at `/`.
  unfoldable pub root_fs : W → FileSystem W × W
  unfolding mount_volume debug_name
  root_fs w = of_disk (machine.ata_init w)

  unfoldable pub mount_all : FileSystem W → Option (Vfs W)
  unfolding mount
  mount_all root =
      let at_root = and_mount (some new) (codes "/") root in
      let at_tmp = and_mount at_root (codes "/tmp") (tmpfs machine.tree machine.put_tree) in
      let at_dev = and_mount at_tmp (codes "/dev") (devfs machine.devices) in
      and_mount at_dev (codes "/ram") fallback

  -- The mount table, with the state in which the tmpfs is empty.
  unfoldable pub mount_root : W → Option (Vfs W) × W
  unfolding root_fs mount_all
  mount_root w = let (root, w1) = root_fs w in (mount_all root, machine.put_tree Tmp.fresh w1)

  -- The table that `mount_root` builds over a root.
  abbrev pub boot_table : FileSystem W → Vfs W
  boot_table root = record {
    mounts =
        record { prefix = []; fs = root }
        ∷ record { prefix = codes "/tmp"; fs = tmpfs machine.tree machine.put_tree }
        ∷ record { prefix = codes "/dev"; fs = devfs machine.devices }
        ∷ record { prefix = codes "/ram"; fs = ramfs seed machine.ticks }
        ∷ [];
  }

  pub mount_all_lem : (root : FileSystem W) → mount_all root ≡ some (boot_table root)
  unfolding mount_all new mounted canonical_prefix
  mount_all_lem root = refl
