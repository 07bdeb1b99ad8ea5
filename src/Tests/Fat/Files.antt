-- ===== src/Tests/Fat/Files.antt =====
-- Files on a small FAT32 volume (kernel/src/fs/fat.rs), old and new, and through the mount table.

use willo_main.Fat.Chain.{
  chunks, entries_of, find_entry, read_file, read_chain, cluster_to_lba, in_chain,
}
use willo_main.Fat.Sectors.{Ends}
use willo_main.Fat.Linked.{IsLinked, Holds}
use willo_main.Fat.Table.{write_fat_entry, end_of_chain}
use willo_main.Fat.Files.{clusters_for, split_parent, store_data, write_file}
use willo_main.Fat.Slots.{IsSized, IsEntrySet, write_fat_entry-Ends}
use willo_main.Fat.Grown.{IsShort}
use willo_main.Path.{segments}
use willo_main.Fat.Listing.{has_free}
use willo_main.Fat.Filled.{slots}
use willo_main.Fat.Found.{IsRootPath, IsDirectory, listed}
use willo_main.Fat.Created.{read_file-write_file}
use willo_main.Fat.ReadBack.{IsUsed, read_chain-store_data_other}
use willo_main.Prelude.{
  Option, some, Text, replicate, ◌⊎◌, ℕ, ◌≡◌, refl, [], ◌∷◌, take, All, same, none, true, codes,
  arith,
}
use willo_main.Fs.{ok}
use willo_main.Vfs.{Vfs, resolve, covers, better, best_mount, relative_to}
use willo_main.Vfs.Calls as Calls
use willo_main.Fat.Backend.{fatfs}
use willo_main.Fat.Mounted.{Settles, read_file-write_file_mounted}
use willo_main.Tests.Fat.{
  ram_drive, blocks, ram_drive-IsDisk, ram_drive-never, long_file, disk_volume,
  disk_volume-IsVolume, empty_disk, empty_disk-IsSized, short_name,
}

-- A file of 600 zeros in the clusters 3 and 5.
abbrev in_use : ℕ → Text
in_use =
    (write_fat_entry ram_drive disk_volume 3 5
      (write_fat_entry ram_drive disk_volume 5 end_of_chain empty_disk).1).1

in_use-IsSized :
    IsSized ram_drive blocks ram_drive-IsDisk ram_drive-never disk_volume disk_volume-IsVolume
      in_use
unfolding write_fat_entry
in_use-IsSized =
    let one : IsEntrySet ram_drive blocks ram_drive-IsDisk ram_drive-never disk_volume
        disk_volume-IsVolume 5 end_of_chain empty_disk
        (write_fat_entry ram_drive disk_volume 5 end_of_chain empty_disk).1 =
      write_fat_entry-Ends ram_drive blocks ram_drive-IsDisk ram_drive-never disk_volume
        disk_volume-IsVolume 5 end_of_chain empty_disk (omega arith) empty_disk-IsSized in
    let two : IsEntrySet ram_drive blocks ram_drive-IsDisk ram_drive-never disk_volume
        disk_volume-IsVolume 3 5 (write_fat_entry ram_drive disk_volume 5 end_of_chain empty_disk).1
        in_use =
      write_fat_entry-Ends ram_drive blocks ram_drive-IsDisk ram_drive-never disk_volume
        disk_volume-IsVolume 3 5 (write_fat_entry ram_drive disk_volume 5 end_of_chain empty_disk).1
        (omega arith) one.sized in
    two.sized

in_use-IsUsed :
    All
      (IsUsed ram_drive blocks ram_drive-IsDisk ram_drive-never disk_volume disk_volume-IsVolume
        in_use)
      (3 ∷ 5 ∷ [])
unfolding write_fat_entry
in_use-IsUsed = (
  (omega arith, omega arith, λ e. omega (arith, e)),
  ((omega arith, omega arith, λ e. omega (arith, e)), tt),
)

in_use-IsLinked :
    IsLinked ram_drive blocks ram_drive-IsDisk ram_drive-never disk_volume in_use (3 ∷ 5 ∷ [])
unfolding in_chain write_fat_entry
in_use-IsLinked = (refl, refl, (refl, tt, tt))

in_use-Holds :
    Holds ram_drive blocks ram_drive-IsDisk ram_drive-never disk_volume in_use
      (3 ∷ 5 ∷ [])
      (replicate 600 0)
unfolding write_fat_entry cluster_to_lba
in_use-Holds = (refl, λ k. (refl, λ m. absurd (omega (arith, m))))

read_chain-store_data_other_example :
    Ends
      (⊥
        ⊎ IsShort ram_drive blocks ram_drive-IsDisk ram_drive-never disk_volume disk_volume-IsVolume
            (clusters_for disk_volume long_file)
            in_use)
      (λ head w'.
        Ends ⊥
          (λ all w''. take 600 all ≡ replicate 600 0)
          (read_chain ram_drive disk_volume 2 3 600 [] w'))
      (store_data ram_drive disk_volume 9 long_file in_use)
read_chain-store_data_other_example =
    read_chain-store_data_other ram_drive blocks ram_drive-IsDisk ram_drive-never disk_volume
      disk_volume-IsVolume 9 3 2 (5 ∷ []) long_file (replicate 600 0) in_use in_use-IsSized refl
      (omega arith) in_use-IsUsed in_use-IsLinked in_use-Holds (omega arith)

-- A volume with an empty root directory in the cluster 2.
abbrev formatted : ℕ → Text
formatted = (write_fat_entry ram_drive disk_volume 2 end_of_chain empty_disk).1

formatted-IsSized :
    IsSized ram_drive blocks ram_drive-IsDisk ram_drive-never disk_volume disk_volume-IsVolume
      formatted
unfolding write_fat_entry
formatted-IsSized =
    let one : IsEntrySet ram_drive blocks ram_drive-IsDisk ram_drive-never disk_volume
        disk_volume-IsVolume 2 end_of_chain empty_disk formatted =
      write_fat_entry-Ends ram_drive blocks ram_drive-IsDisk ram_drive-never disk_volume
        disk_volume-IsVolume 2 end_of_chain empty_disk (omega arith) empty_disk-IsSized in
    one.sized

root_path : IsRootPath (codes "/log.txt") (codes "log.txt")
unfolding split_parent segments same
root_path = record { split = refl; below = refl; parts = refl }

root-IsDirectory :
    IsDirectory ram_drive blocks ram_drive-IsDisk ram_drive-never disk_volume disk_volume-IsVolume 2
      [] formatted
unfolding write_fat_entry
root-IsDirectory = record {
  inside = ((omega arith, omega arith), tt);
  distinct = (tt, tt);
  chain = refl;
  limited = omega arith;
}

nothing_listed :
    listed ram_drive blocks ram_drive-IsDisk ram_drive-never disk_volume disk_volume-IsVolume
      (codes "log.txt")
      (2 ∷ [])
      formatted
    ≡ none
unfolding write_fat_entry cluster_to_lba chunks entries_of find_entry
nothing_listed = refl

room_left :
    has_free (
      slots ram_drive blocks ram_drive-IsDisk ram_drive-never disk_volume disk_volume-IsVolume
        formatted
        (2 ∷ []))
    ≡ true
unfolding write_fat_entry cluster_to_lba chunks
room_left = refl

read_file-write_file_example :
    Ends
      (⊥
        ⊎ IsShort ram_drive blocks ram_drive-IsDisk ram_drive-never disk_volume disk_volume-IsVolume
            (clusters_for disk_volume long_file)
            formatted)
      (λ u w'.
        Ends ⊥
          (λ all w''. all ≡ long_file)
          (read_file ram_drive disk_volume 3 (codes "/log.txt") w'))
      (write_file ram_drive disk_volume 3 (codes "/log.txt") long_file formatted)
read_file-write_file_example =
    read_file-write_file ram_drive blocks ram_drive-IsDisk ram_drive-never disk_volume
      disk_volume-IsVolume 3 [] (codes "/log.txt") (codes "log.txt") long_file formatted root_path
      short_name root-IsDirectory formatted-IsSized nothing_listed room_left refl (omega arith)
      (omega arith) (omega arith)

-- The volume under "/disk".
abbrev table : Vfs (Option (ℕ → Text))
table = record {
  mounts = record { prefix = codes "/disk"; fs = fatfs ram_drive disk_volume 3 } ∷ [];
}

on_disk :
    resolve table (codes "/disk/log.txt") ≡ ok (fatfs ram_drive disk_volume 3, codes "/log.txt")
unfolding resolve covers better best_mount relative_to same
on_disk = refl

read_file-write_file_mounted_example :
    Settles
      (⊥
        ⊎ IsShort ram_drive blocks ram_drive-IsDisk ram_drive-never disk_volume disk_volume-IsVolume
            (clusters_for disk_volume long_file)
            formatted)
      (λ u w'.
        Settles ⊥
          (λ all w''. all ≡ long_file)
          (Calls.read_file table (codes "/disk/log.txt") (some w')))
      (Calls.write_file table (codes "/disk/log.txt") long_file (some formatted))
read_file-write_file_mounted_example =
    read_file-write_file_mounted ram_drive blocks ram_drive-IsDisk ram_drive-never disk_volume
      disk_volume-IsVolume table 3 [] (codes "/disk/log.txt") (codes "/log.txt") (codes "log.txt")
      long_file formatted on_disk root_path short_name root-IsDirectory formatted-IsSized
      nothing_listed room_left refl (omega arith) (omega arith) (omega arith)
