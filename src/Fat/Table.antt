-- ===== src/Fat/Table.antt =====
-- kernel/src/fs/fat.rs: the writes to the FAT, its summary sector, and the clusters.
use willo_main.Prelude.{
  ℕ, zero, suc, ◌+◌, ◌-◌, ◌*◌, ◌/◌, ◌%◌, ◌^◌, Bool, ◌&&◌, not, ◌++◌, Text, ◌==◌, if◌then◌else◌,
  length, take, drop, replicate,
}
use willo_main.Path.{is_empty}
use willo_main.Fs.{io}
use willo_main.Block.{BlockDevice, block_size}
use willo_main.Fat.{FatFs, le32, word32, cluster_mod}
use willo_main.Fat.Io.{Io, ret, raise, spin, ignore, ◌>>=◌, ◌>>◌}
use willo_main.Fat.Chain.{
  in_chain, cluster_bytes, cluster_to_lba, fat_sector, in_sector, read_sector, write_sector,
  next_cluster,
}

-- `buf[at..at + bytes.len()].copy_from_slice(bytes)`
abbrev pub splice : Text → ℕ → Text → Text
splice buf at bytes = take at buf ++ (bytes ++ drop (length bytes) (drop at buf))

-- `EOC_THRESHOLD | 0xF`
abbrev pub end_of_chain : ℕ
end_of_chain = 0x0FFFFFFF

-- A change of the count of free clusters.
pub data Delta : Type 0 where
  fewer more : ℕ → Delta

-- `(free as i64 + delta_free as i64).max(0) as u32`
unfoldable pub count_after : ℕ → Delta → ℕ
count_after free (fewer n) = free - n
count_after free (more n) = (free + n) % 2 ^ 32

-- The word of a FAT sector with the low 28 bits replaced.
unfoldable pub set_entry : Text → ℕ → ℕ → Text
set_entry buf at value =
    splice buf at (le32 (value % cluster_mod + word32 buf at / cluster_mod * cluster_mod))

-- The summary sector after a change.
unfoldable pub set_count : Text → Delta → Text
unfolding count_after
set_count buf delta =
    if word32 buf 0x1E8 == 0xFFFFFFFF
    then buf
    else splice buf 0x1E8 (le32 (count_after (word32 buf 0x1E8) delta))

unfoldable pub set_hint : Text → ℕ → Text
set_hint buf last_alloc = if last_alloc == 0 then buf else splice buf 0x1EC (le32 last_alloc)

abbrev pub signed_fsinfo : Text → Bool
signed_fsinfo buf = word32 buf 0 == 0x41615252 && word32 buf 484 == 0x61417272

module _ {W : Type 0} (drive : BlockDevice W) where
  -- The loop of `write_fat_entry`: `count` copies of the FAT from the copy `i` on.
  unfoldable pub write_copies : FatFs → ℕ → ℕ → ℕ → ℕ → Io W (Unit {0})
  unfolding set_entry
  write_copies v zero i cluster value = ret tt
  write_copies v (suc count) i cluster value = do
    buf ← read_sector drive ((fat_sector v cluster + i * v.sectors_per_fat) % 2 ^ 32)
    write_sector drive ((fat_sector v cluster + i * v.sectors_per_fat) % 2 ^ 32)
        (set_entry buf (in_sector v cluster) value)
    write_copies v count (i + 1) cluster value

  unfoldable pub write_fat_entry : FatFs → ℕ → ℕ → Io W (Unit {0})
  unfolding write_copies
  write_fat_entry v cluster value = write_copies v v.num_fats 0 cluster value

  unfoldable pub update_fsinfo : FatFs → Delta → ℕ → Io W (Unit {0})
  unfolding set_count set_hint
  update_fsinfo v delta last_alloc = do
    buf ← read_sector drive 1
    if signed_fsinfo buf
        then write_sector drive 1 (set_hint (set_count buf delta) last_alloc)
        else ret tt

  -- The loop of `find_free_cluster`: `count` clusters from `c` on. The sector that was read last is
  -- kept, with its number.
  unfoldable pub find_free_from : FatFs → ℕ → ℕ → ℕ → Text → Io W ℕ
  find_free_from v zero c current buf = raise io
  find_free_from v (suc count) c current buf = do
    sector ← (if fat_sector v c == current then ret buf else read_sector drive (fat_sector v c))
    if word32 sector (in_sector v c) % cluster_mod == 0
        then ret c
        else find_free_from v count (c + 1) (fat_sector v c) sector

  abbrev pub total_clusters : FatFs → ℕ
  total_clusters v = v.sectors_per_fat * v.bytes_per_sector % 2 ^ 32 / 4

  unfoldable pub find_free_cluster : FatFs → Io W ℕ
  unfolding find_free_from
  find_free_cluster v =
      find_free_from v (total_clusters v - 2) 2 (2 ^ 32 - 1) (replicate block_size 0)

  -- `count` sectors from `lba`, one after the other.
  unfoldable pub write_sectors : ℕ → ℕ → Text → Io W (Unit {0})
  write_sectors zero lba bytes = ret tt
  write_sectors (suc count) lba bytes = do
    write_sector drive lba (take block_size bytes)
    write_sectors count (lba + 1) (drop block_size bytes)

  unfoldable pub write_cluster : FatFs → ℕ → Text → Io W (Unit {0})
  unfolding write_sectors cluster_to_lba
  write_cluster v cluster bytes =
      write_sectors v.sectors_per_cluster (cluster_to_lba v cluster) bytes

  unfoldable pub zero_cluster : FatFs → ℕ → Io W (Unit {0})
  unfolding write_cluster
  zero_cluster v cluster = write_cluster v cluster (replicate (cluster_bytes v) 0)

  -- The loop of `allocate_chain`, with the head so far and the cluster before. The result is the
  -- head and the last cluster.
  unfoldable pub allocate_from : FatFs → ℕ → ℕ → ℕ → Io W (ℕ × ℕ)
  unfolding find_free_cluster write_fat_entry zero_cluster
  allocate_from v zero head prev = ret (head, prev)
  allocate_from v (suc count) head prev = do
    c ← find_free_cluster v
    write_fat_entry v c end_of_chain
    zero_cluster v c
    if prev == 0
        then allocate_from v count c c
        else (write_fat_entry v prev c >> allocate_from v count head c)

  unfoldable pub allocate_chain : FatFs → ℕ → Io W ℕ
  unfolding allocate_from update_fsinfo
  allocate_chain v count = if count == 0 then ret 0 else (do
    (head, last) ← allocate_from v count 0 0
    ignore (update_fsinfo v (fewer count) last)
    ret head)

  -- The loop of `free_chain`; the result is the number of clusters freed.
  unfoldable pub free_from : FatFs → ℕ → ℕ → ℕ → Io W ℕ
  unfolding in_chain next_cluster write_fat_entry
  free_from v zero cluster freed = spin
  free_from v (suc fuel) cluster freed =
      if in_chain cluster
      then (do
        next ← next_cluster drive v cluster
        write_fat_entry v cluster 0
        free_from v fuel next (freed + 1))
      else ret freed

  unfoldable pub free_chain : FatFs → ℕ → ℕ → Io W (Unit {0})
  unfolding free_from update_fsinfo
  free_chain v fuel start = do
    freed ← free_from v fuel start 0
    if freed == 0 then ret tt else ignore (update_fsinfo v (more freed) 0)

  -- The bytes of one cluster of a file, filled with zeros.
  abbrev pub cluster_of : FatFs → Text → Text
  cluster_of v bytes = take (cluster_bytes v) bytes ++ replicate (cluster_bytes v - length bytes) 0

  -- Each round writes at least one byte of the file: `bytes` is what is left of it.
  unfoldable pub write_chain : FatFs → ℕ → ℕ → Text → Io W (Unit {0})
  unfolding in_chain next_cluster write_cluster
  write_chain v zero cluster bytes = spin
  write_chain v (suc fuel) cluster bytes =
      if not (is_empty bytes) && in_chain cluster
      then (do
        write_cluster v cluster (cluster_of v bytes)
        if is_empty (drop (cluster_bytes v) bytes) then ret tt else (do
          next ← next_cluster drive v cluster
          write_chain v fuel next (drop (cluster_bytes v) bytes)))
      else ret tt
