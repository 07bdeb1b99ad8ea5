-- ===== src/Tests/Fat.antt =====
-- The FAT32 code (kernel/src/fs/fat.rs) on a small volume and a drive that never fails.
pub mod Files
use willo_main.Block.{BlockDevice, IsDisk, FailsOnlyIf, moved}
use willo_main.Fat.Io.{done}
use willo_main.Fat.Chain.{
  chunks, entries_of, find_entry, read_file, read_chain, cluster_to_lba, in_chain,
}
use willo_main.Fat.Sectors.{Ends}
use willo_main.Fat.Linked.{IsLinked, Holds}
use willo_main.Fat.Table.{write_fat_entry, end_of_chain, allocate_chain, free_chain}
use willo_main.Fat.Files.{clusters_for, split_parent, store_data, write_file}
use willo_main.Fat.Volume.{IsVolume}
use willo_main.Fat.Slots.{IsSized, IsEntrySet, entry, write_fat_entry-Ends}
use willo_main.Fat.Grown.{IsShort}
use willo_main.Fat.Allocated.{IsAllocated}
use willo_main.Fat.Freed.{free_chain-allocate_chain}
use willo_main.Path.{segments}
use willo_main.Fat.Listing.{has_free}
use willo_main.Fat.Filled.{slots}
use willo_main.Fat.Found.{IsRootPath, IsDirectory, listed}
use willo_main.Fat.Created.{read_file-write_file}
use willo_main.Fat.ReadBack.{IsUsed, read_chain-store_data, read_chain-store_data_other}
use willo_main.Fat.Mirror.{AreApart, copy_sector, write_fat_entry_lem}
use willo_main.Prelude.{
  Text, ◌==◌, ◌%◌, if◌then◌else◌, replicate, ap, sym, ◌∙◌, ◌+◌, ◌⊎◌, ◌≢◌, ◌/◌, ℕ, ◌≡◌, refl, ◌≤◌,
  ◌<◌, inr, List, [], ◌∷◌, suc, length, take, All, same, none, true, false, codes, arith,
}
use willo_main.Fat.{word32, FatFs, cluster_mod, found, read_slot, write_short_entry}
use willo_main.Fat.Names.{IsPlain, IsShortName}
use willo_main.Fat.Entry.{read_slot-write_short_entry}

letter : (c : ℕ) → 97 ≤ c → c < 128 → IsPlain c
letter c h k = (omega arith, k, (λ e. omega arith), (λ e. omega arith), inr (omega arith))

pub short_name : IsShortName (codes "log.txt")
short_name = record {
  base = codes "log";
  ext = codes "txt";
  parts = refl;
  base_plain = (
    letter 108 (omega arith) (omega arith),
    (letter 111 (omega arith) (omega arith), (letter 103 (omega arith) (omega arith), tt)),
  );
  ext_plain = (
    letter 116 (omega arith) (omega arith),
    (letter 120 (omega arith) (omega arith), (letter 116 (omega arith) (omega arith), tt)),
  );
  base_filled = refl;
  base_short = omega arith;
  ext_short = omega arith;
}

read_slot-write_short_entry_example :
    read_slot (write_short_entry (codes "log.txt") 32 70000 12345)
    ≡ found (record { name = codes "log.txt"; is_dir = false; cluster = 70000; size = 12345 })
read_slot-write_short_entry_example =
    read_slot-write_short_entry (codes "log.txt") 32 70000 12345 short_name (omega arith)
      (omega arith) refl

-- A drive that never fails, as a function from block numbers to blocks.
abbrev put_block : (ℕ → Text) → ℕ → Text → ℕ → Text
put_block w lba bytes l = if l == lba then bytes else w l

abbrev pub ram_drive : BlockDevice (ℕ → Text)
ram_drive = record {
  num_blocks = λ w. 64;
  read_block = λ lba w. (moved (w lba), w);
  write_block = λ lba bytes w. (moved tt, put_block w lba bytes);
}

abbrev pub blocks : (ℕ → Text) → ℕ → Text
blocks w l = w l

pub ram_drive-IsDisk : IsDisk ram_drive blocks
ram_drive-IsDisk = record {
  reads = λ lba bytes w w' h. (cc, (λ l. ap (λ f. f l) (sym (ap (λ r. r.1) h))));
  writes = λ lba bytes w w' h.
      (let e : w' ≡ put_block w lba bytes = sym (ap (λ r. r.1) h) in
        (ap (λ f. f lba) e ∙ ground arith, (λ l ne. ap (λ f. f l) e ∙ ground arith)));
}

pub ram_drive-never : FailsOnlyIf ⊥ ram_drive blocks
ram_drive-never = record {
  read_fails = λ lba e w w' h. absurd (cc);
  write_fails = λ lba bytes e w w' h. absurd (cc);
}

abbrev volume : FatFs
volume = record {
  bytes_per_sector = 512;
  sectors_per_cluster = 1;
  reserved_sectors = 1;
  num_fats = 2;
  sectors_per_fat = 1;
  root_cluster = 2;
  fat_start_lba = 1;
  data_start_lba = 3;
}

abbrev pub empty_disk : ℕ → Text
empty_disk l = replicate 512 0

abbrev linked : ℕ → Text
linked = (write_fat_entry ram_drive volume 3 5 empty_disk).1

link_run : write_fat_entry ram_drive volume 3 5 empty_disk ≡ (done tt, linked)
unfolding write_fat_entry
link_run = refl

volume-AreApart : AreApart ram_drive blocks ram_drive-IsDisk volume 3 5 0 2
volume-AreApart j k a b c = λ e. omega (arith, e, b, c)

write_fat_entry_lem_example :
    ((k : ℕ)
      → k < 2
      → (word32 (linked (copy_sector volume 3 k)) 12 % cluster_mod ≡ 5 % cluster_mod)
        × (word32 (linked (copy_sector volume 3 k)) 12 / cluster_mod
            ≡ word32 (empty_disk (copy_sector volume 3 k)) 12 / cluster_mod)
        × ((j : ℕ)
            → (j + 4 ≤ 12) ⊎ (12 + 4 ≤ j)
            → word32 (linked (copy_sector volume 3 k)) j
              ≡ word32 (empty_disk (copy_sector volume 3 k)) j))
    × ((l : ℕ) → ((k : ℕ) → k < 2 → l ≢ copy_sector volume 3 k) → linked l ≡ empty_disk l)
write_fat_entry_lem_example =
    write_fat_entry_lem ram_drive blocks ram_drive-IsDisk volume 3 5 empty_disk linked
      volume-AreApart (λ l. omega arith) (λ l. omega arith) link_run

-- 600 bytes, in two clusters.
abbrev pub long_file : Text
long_file = replicate 600 7

-- A volume with its FAT behind the summary sector.
abbrev pub disk_volume : FatFs
disk_volume = record {
  bytes_per_sector = 512;
  sectors_per_cluster = 1;
  reserved_sectors = 2;
  num_fats = 2;
  sectors_per_fat = 1;
  root_cluster = 2;
  fat_start_lba = 2;
  data_start_lba = 4;
}

pub disk_volume-IsVolume : IsVolume disk_volume
disk_volume-IsVolume = record {
  sector_size = refl;
  some_sectors = omega arith;
  some_fats = omega arith;
  fat_behind = omega arith;
  data_behind = refl;
  some_entries = omega arith;
  few_entries = omega arith;
  in_range = omega arith;
}

pub empty_disk-IsSized :
    IsSized ram_drive blocks ram_drive-IsDisk ram_drive-never disk_volume disk_volume-IsVolume
      empty_disk
empty_disk-IsSized l = refl

read_chain-store_data_example :
    Ends
      (⊥
        ⊎ IsShort ram_drive blocks ram_drive-IsDisk ram_drive-never disk_volume disk_volume-IsVolume
            (clusters_for disk_volume long_file)
            empty_disk)
      (λ head w'.
        (rest : List ℕ) × (suc (length rest) ≡ clusters_for disk_volume long_file)
        × IsAllocated ram_drive blocks ram_drive-IsDisk ram_drive-never disk_volume
            disk_volume-IsVolume head rest empty_disk w'
        × Ends ⊥
            (λ all w''. take 600 all ≡ long_file)
            (read_chain ram_drive disk_volume 2 head 600 [] w'))
      (store_data ram_drive disk_volume 9 long_file empty_disk)
read_chain-store_data_example =
    read_chain-store_data ram_drive blocks ram_drive-IsDisk ram_drive-never disk_volume
      disk_volume-IsVolume 9 2 long_file empty_disk empty_disk-IsSized refl (omega arith)
      (omega arith)

free_chain-allocate_chain_example :
    Ends
      (⊥
        ⊎ IsShort ram_drive blocks ram_drive-IsDisk ram_drive-never disk_volume disk_volume-IsVolume
            3 empty_disk)
      (λ head w'.
        Ends ⊥
          (λ u w''.
            (d : ℕ)
            → d < 128
            → entry ram_drive blocks ram_drive-IsDisk ram_drive-never disk_volume
                disk_volume-IsVolume w'' d
              ≡ entry ram_drive blocks ram_drive-IsDisk ram_drive-never disk_volume
                  disk_volume-IsVolume empty_disk d)
          (free_chain ram_drive disk_volume 9 head w'))
      (allocate_chain ram_drive disk_volume 3 empty_disk)
free_chain-allocate_chain_example =
    free_chain-allocate_chain ram_drive blocks ram_drive-IsDisk ram_drive-never disk_volume
      disk_volume-IsVolume 2 9 empty_disk empty_disk-IsSized (omega arith)
