-- ===== src/Fat/Chain.antt =====
-- kernel/src/fs/fat.rs: the volume on the drive, its cluster chains and its directories, read only.
-- `fuel` bounds the rounds of a loop along a chain.
use willo_main.Prelude.{
  ℕ, zero, suc, ◌+◌, ◌-◌, ◌*◌, ◌/◌, ◌%◌, ◌^◌, Bool, true, false, not, ◌&&◌, ◌||◌, Option, none,
  some, List, [], ◌∷◌, ◌++◌, map, Text, codes, same, ltb, leb, ◌==◌, if◌then◌else◌, length, take,
  drop,
}
use willo_main.Path.{segments, is_empty}
use willo_main.Fs.{not_found, not_a_dir, is_a_dir, io}
use willo_main.Block.{BlockDevice, block_size}
use willo_main.Fat.{
  FatFs, DirEntry, byte, word16, word32, eoc_threshold, cluster_mod, same_ignoring_case, read_slot,
  stop, skip, found,
}
use willo_main.Fat.Io.{Io, Outcome, fail, done, unended, ret, raise, spin, ◌>>=◌, from_block}

-- `cluster >= 2 && cluster < EOC_THRESHOLD`
unfoldable pub in_chain : ℕ → Bool
in_chain cluster = leb 2 cluster && ltb cluster eoc_threshold

-- `chunks_exact(32)`
unfoldable pub chunks : ℕ → Text → List Text
chunks zero bytes = []
chunks (suc n) bytes = take 32 bytes ∷ chunks n (drop 32 bytes)

-- The loop of `read_dir` over the slots.
unfoldable pub entries_of : List Text → List DirEntry
unfolding read_slot
entries_of [] = []
entries_of (slot ∷ slots) =
    let rest = entries_of slots in
    elim (read_slot slot) [ stop ↦ [] | skip ↦ rest | found e ↦ e ∷ rest ]

-- Whether no further segment follows.
abbrev is_last : List Text → Bool
is_last [] = true
is_last (s ∷ ss) = false

unfoldable pub find_entry : Text → List DirEntry → Option DirEntry
unfolding same_ignoring_case
find_entry name [] = none
find_entry name (e ∷ es) = if same_ignoring_case e.name name then some e else find_entry name es

abbrev pub root_entry : FatFs → DirEntry
root_entry v = record { name = codes "/"; is_dir = true; cluster = v.root_cluster; size = 0 }

abbrev pub cluster_bytes : FatFs → ℕ
cluster_bytes v = v.sectors_per_cluster * v.bytes_per_sector

-- `u32` arithmetic, which wraps.
unfoldable pub cluster_to_lba : FatFs → ℕ → ℕ
cluster_to_lba v cluster =
    (v.data_start_lba + (cluster + 2 ^ 32 - 2) % 2 ^ 32 * v.sectors_per_cluster) % 2 ^ 32

-- The sector of the FAT that holds a cluster's entry, and the entry's place in it.
abbrev pub fat_sector : FatFs → ℕ → ℕ
fat_sector v cluster = (v.fat_start_lba + cluster * 4 % 2 ^ 32 / v.bytes_per_sector) % 2 ^ 32

abbrev pub in_sector : FatFs → ℕ → ℕ
in_sector v cluster = cluster * 4 % 2 ^ 32 % v.bytes_per_sector

-- The fields of the BPB, if it describes a volume that the code can read.
unfoldable pub parse_bpb : Text → Option FatFs
parse_bpb buf =
    if not (word16 buf 0x0B == block_size) || (byte buf 0x0D == 0 || byte buf 0x10 == 0)
    then none
    else some (record {
      bytes_per_sector = word16 buf 0x0B;
      sectors_per_cluster = byte buf 0x0D;
      reserved_sectors = word16 buf 0x0E;
      num_fats = byte buf 0x10;
      sectors_per_fat = word32 buf 0x24;
      root_cluster = word32 buf 0x2C;
      fat_start_lba = word16 buf 0x0E;
      data_start_lba = (word16 buf 0x0E + byte buf 0x10 * word32 buf 0x24) % 2 ^ 32;
    })

module _ {W : Type 0} (drive : BlockDevice W) where
  abbrev pub read_sector : ℕ → Io W Text
  read_sector lba w = from_block (drive.read_block lba w)

  abbrev pub write_sector : ℕ → Text → Io W (Unit {0})
  write_sector lba bytes w = from_block (drive.write_block lba bytes w)

  unfoldable pub mount_volume : Io W FatFs
  unfolding parse_bpb
  mount_volume = do buf ← read_sector 0; elim (parse_bpb buf) [ none ↦ raise io | some v ↦ ret v ]

  -- `count` sectors from `lba`, one after the other.
  unfoldable pub read_sectors : ℕ → ℕ → Io W Text
  read_sectors zero lba = ret []
  read_sectors (suc count) lba = do
    first ← read_sector lba
    rest ← read_sectors count (lba + 1)
    ret (first ++ rest)

  unfoldable pub next_cluster : FatFs → ℕ → Io W ℕ
  next_cluster v cluster = do
    buf ← read_sector (fat_sector v cluster)
    ret (word32 buf (in_sector v cluster) % cluster_mod)

  -- `out` is what the loop has read so far.
  unfoldable pub read_chain : FatFs → ℕ → ℕ → ℕ → Text → Io W Text
  unfolding read_sectors next_cluster in_chain cluster_to_lba
  read_chain v zero cluster max_bytes out = spin
  read_chain v (suc fuel) cluster max_bytes out =
      if in_chain cluster
      then (do
        buf ← read_sectors v.sectors_per_cluster (cluster_to_lba v cluster)
        if leb max_bytes (length (out ++ buf))
            then ret (out ++ buf)
            else (do next ← next_cluster v cluster; read_chain v fuel next max_bytes (out ++ buf)))
      else ret out

  unfoldable pub read_dir : FatFs → ℕ → ℕ → Io W (List DirEntry)
  unfolding read_chain entries_of chunks
  read_dir v fuel cluster = do
    bytes ← read_chain v fuel cluster (2 ^ 64 - 1) []
    ret (entries_of (chunks (length bytes / 32) bytes))

  -- The loop of `lookup`, from the directory at `cluster`.
  unfoldable pub walk_dirs : FatFs → ℕ → ℕ → List Text → Io W DirEntry
  unfolding read_dir find_entry
  walk_dirs v fuel cluster [] = raise not_found
  walk_dirs v fuel cluster (s ∷ ss) = do
    entries ← read_dir v fuel cluster
    elim (find_entry s entries) [
      | none ↦ raise not_found
      | some e ↦
          if is_last ss
          then ret e
          else if e.is_dir
          then walk_dirs v fuel e.cluster ss
          else raise not_a_dir
    ]

  unfoldable pub lookup : FatFs → ℕ → Text → Io W DirEntry
  unfolding walk_dirs segments
  lookup v fuel abs =
      if same abs (codes "/") || is_empty abs
      then ret (root_entry v)
      else walk_dirs v fuel v.root_cluster (segments abs)

  unfoldable pub read_file : FatFs → ℕ → Text → Io W Text
  unfolding lookup read_chain
  read_file v fuel abs = do
    e ← lookup v fuel abs
    if e.is_dir
        then raise is_a_dir
        else if e.size == 0 || ltb e.cluster 2
        then ret []
        else (do out ← read_chain v fuel e.cluster e.size []; ret (take e.size out))

  unfoldable pub list_dir : FatFs → ℕ → Text → Io W (List Text)
  unfolding lookup read_dir
  list_dir v fuel abs = do
    e ← lookup v fuel abs
    if e.is_dir
        then (do
          entries ← read_dir v fuel (if same abs (codes "/") then v.root_cluster else e.cluster)
          ret (map (λ e. e.name) entries))
        else raise not_a_dir

  -- An error of the lookup is not a directory.
  abbrev is_dir_of : Outcome DirEntry × W → Outcome Bool × W
  is_dir_of (done e, w) = (done e.is_dir, w)
  is_dir_of (fail e, w) = (done false, w)
  is_dir_of (unended, w) = (unended, w)

  unfoldable pub is_dir : FatFs → ℕ → Text → Io W Bool
  unfolding lookup
  is_dir v fuel abs w = is_dir_of (lookup v fuel abs w)

  unfoldable pub cluster_for : FatFs → ℕ → Text → Io W ℕ
  unfolding lookup
  cluster_for v fuel abs =
      if same abs (codes "/")
      then ret v.root_cluster
      else (do e ← lookup v fuel abs; if e.is_dir then ret e.cluster else raise not_a_dir)

  unfoldable pub find_in_dir : FatFs → ℕ → ℕ → Text → Io W (Option DirEntry)
  unfolding read_dir find_entry
  find_in_dir v fuel cluster name = do
    entries ← read_dir v fuel cluster
    ret (find_entry name entries)
