-- ===== src/Tests/Boot.antt =====
-- A boot without a data disk (kernel/src/fs/mod.rs, `mount_root`); the state is the tree of the tmpfs.
use willo_main.Prelude.{ℕ, ◌≡◌, refl, true, false, ◌++◌, codes}
use willo_main.Fs.{ok, FileSystem}
use willo_main.Block.{BlockDevice, out_of_range, failed, drive_error}
use willo_main.Dev.{Devices}
use willo_main.Tmp.{tmpfs, Node, dir, file, end, entry}
use willo_main.Ram.{ramfs, seed}
use willo_main.Vfs.Calls.{read_file, write_file}
use willo_main.Boot.{Machine, boot_table}
use willo_main.Vfs.{Vfs}
use willo_main.Boot.Scratch.{read_file-write_file_tmp}

abbrev no_drive : BlockDevice Node
no_drive = record {
  num_blocks = λ w. 0;
  read_block = λ lba w. (failed out_of_range, w);
  write_block = λ lba bytes w. (failed out_of_range, w);
}

abbrev devices : Devices Node
devices = record {
  print = λ text w. w;
  has_serial = λ w. false;
  send = λ byte w. w;
  drive = no_drive;
  is_utf8 = λ bytes. true;
}

abbrev clock : Node → ℕ
clock w = 7

abbrev machine : Machine Node
machine = record {
  ata_init = λ w. (failed drive_error, w);
  log = λ text w. w;
  devices = devices;
  ticks = clock;
  tree = λ w. w;
  put_tree = λ tree w. tree;
  fat = λ volume. ramfs seed clock;
}

abbrev seeded : FileSystem Node
seeded = ramfs seed clock

write_run :
    write_file (boot_table machine seeded) (codes "/tmp/" ++ codes "x") (codes "hi") (dir end)
    ≡ (ok tt, dir (entry (codes "x") (file (codes "hi")) end))
unfolding write_file tmpfs
write_run = refl

read_file-write_file_tmp_example :
    read_file
      (boot_table machine seeded)
      (codes "/tmp/" ++ codes "x")
      (dir (entry (codes "x") (file (codes "hi")) end))
    ≡ (ok (codes "hi"), dir (entry (codes "x") (file (codes "hi")) end))
read_file-write_file_tmp_example =
    read_file-write_file_tmp machine seeded (codes "x") (codes "hi") (dir end)
      (dir (entry (codes "x") (file (codes "hi")) end)) (λ tree w. refl) write_run
