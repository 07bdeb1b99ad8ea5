-- ===== src/Fat/Directory.antt =====
-- kernel/src/fs/fat.rs: directory slots are filled and marked as deleted on the drive.
use willo_main.Prelude.{
  ℕ, zero, suc, ◌+◌, Bool, true, false, ◌||◌, Option, none, some, [], ◌∷◌, Text, ltb, leb, ◌==◌,
  if◌then◌else◌, take, drop,
}
use willo_main.Fs.{not_found}
use willo_main.Block.{BlockDevice}
use willo_main.Fat.{
  FatFs, byte, eoc_threshold, same_ignoring_case, write_short_entry, decode_short_name, is_hidden,
}
use willo_main.Fat.Io.{Io, ret, raise, spin, ignore, ◌>>=◌, ◌>>◌}
use willo_main.Fat.Chain.{cluster_to_lba, read_sector, write_sector, next_cluster}
use willo_main.Fat.Table.{
  splice, end_of_chain, fewer, write_fat_entry, find_free_cluster, zero_cluster, update_fsinfo,
}

-- The 32 bytes at `off`.
abbrev pub slot_at : Text → ℕ → Text
slot_at buf off = take 32 (drop off buf)

-- The first free slot among `count` slots of a sector from `off` on.
unfoldable pub free_slot : ℕ → ℕ → Text → Option ℕ
free_slot zero off buf = none
free_slot (suc count) off buf =
    let rest = free_slot count (off + 32) buf in
    if byte buf off == 0 || byte buf off == 0xE5 then some off else rest

-- What `delete_dir_entry` finds in a sector: the end of the directory, the slot, or neither.
pub data Found : Type 0 where
  at_end nowhere : Found
  at_slot : ℕ → Found

unfoldable pub slot_of : Text → ℕ → ℕ → Text → Found
unfolding is_hidden decode_short_name same_ignoring_case
slot_of name zero off buf = nowhere
slot_of name (suc count) off buf =
    let rest = slot_of name count (off + 32) buf in
    if byte buf off == 0
    then at_end
    else if is_hidden (slot_at buf off)
    then rest
    else if same_ignoring_case (decode_short_name (slot_at buf off)) name
    then at_slot off
    else rest

-- `next < 2 || next >= EOC_THRESHOLD`
abbrev pub is_chain_end : ℕ → Bool
is_chain_end next = ltb next 2 || leb eoc_threshold next

module _ {W : Type 0} (drive : BlockDevice W) where
  -- The loop over the sectors of a cluster: whether the slot was written.
  unfoldable pub fill_slot : ℕ → ℕ → Text → Io W Bool
  unfolding free_slot
  fill_slot zero lba slot = ret false
  fill_slot (suc count) lba slot = do
    buf ← read_sector drive lba
    elim (free_slot 16 0 buf) [
      | some off ↦ write_sector drive lba (splice buf off slot) >> ret true
      | none ↦ fill_slot count (lba + 1) slot
    ]

  -- A new cluster at the end of the directory.
  unfoldable pub grow : FatFs → ℕ → Io W ℕ
  unfolding find_free_cluster write_fat_entry zero_cluster update_fsinfo
  grow v cluster = do
    new_cluster ← find_free_cluster drive v
    write_fat_entry drive v new_cluster end_of_chain
    zero_cluster drive v new_cluster
    write_fat_entry drive v cluster new_cluster
    ignore (update_fsinfo drive v (fewer 1) new_cluster)
    ret new_cluster

  -- The loop of `add_dir_entry`.
  unfoldable pub add_slot : FatFs → ℕ → ℕ → Text → Io W (Unit {0})
  unfolding fill_slot cluster_to_lba next_cluster grow
  add_slot v zero cluster slot = spin
  add_slot v (suc fuel) cluster slot = do
    written ← fill_slot v.sectors_per_cluster (cluster_to_lba v cluster) slot
    if written then ret tt else (do
      next ← next_cluster drive v cluster
      following ← (if is_chain_end next then grow v cluster else ret next)
      add_slot v fuel following slot)

  unfoldable pub add_dir_entry : FatFs → ℕ → ℕ → Text → ℕ → ℕ → ℕ → Io W (Unit {0})
  unfolding add_slot write_short_entry
  add_dir_entry v fuel parent_cluster name attrs cluster size =
      add_slot v fuel parent_cluster (write_short_entry name attrs cluster size)

  -- The loop over the sectors of a cluster: whether the search is over.
  unfoldable pub mark_deleted : ℕ → ℕ → Text → Io W Bool
  unfolding slot_of
  mark_deleted zero lba name = ret false
  mark_deleted (suc count) lba name = do
    buf ← read_sector drive lba
    elim (slot_of name 16 0 buf) [
      | at_end ↦ ret true
      | at_slot off ↦ write_sector drive lba (splice buf off (0xE5 ∷ [])) >> ret true
      | nowhere ↦ mark_deleted count (lba + 1) name
    ]

  unfoldable pub delete_dir_entry : FatFs → ℕ → ℕ → Text → Io W (Unit {0})
  unfolding mark_deleted cluster_to_lba next_cluster
  delete_dir_entry v zero cluster name = spin
  delete_dir_entry v (suc fuel) cluster name = do
    over ← mark_deleted v.sectors_per_cluster (cluster_to_lba v cluster) name
    if over then ret tt else (do
      next ← next_cluster drive v cluster
      if is_chain_end next then raise not_found else delete_dir_entry v fuel next name)
