-- ===== src/Fat/Files.antt =====
-- kernel/src/fs/fat.rs: the write methods of a mounted volume.
use willo_main.Prelude.{
  ℕ, suc, ◌+◌, ◌-◌, ◌/◌, ◌%◌, ◌^◌, Option, none, some, [], ◌∷◌, ◌++◌, Text, codes, same, leb, ◌==◌,
  if◌then◌else◌, length, replicate,
}
use willo_main.Path.{slash, is_empty, trim_end}
use willo_main.Fs.{not_found, not_a_dir, is_a_dir, io}
use willo_main.Block.{BlockDevice}
use willo_main.Fat.{FatFs, DirEntry, attr_directory, write_short_entry}
use willo_main.Fat.Io.{Io, Outcome, fail, done, unended, ret, raise, ◌>>=◌, ◌>>◌}
use willo_main.Fat.Chain.{cluster_bytes, read_file, is_dir, cluster_for, find_in_dir, read_dir}
use willo_main.Fat.Table.{allocate_chain, free_chain, write_chain, write_cluster}
use willo_main.Fat.Directory.{add_dir_entry, delete_dir_entry}

-- `rfind('/')`, with the two sides of the slash.
unfoldable pub split_slash : Text → Option (Text × Text)
split_slash [] = none
split_slash (x ∷ xs) = elim (split_slash xs) [
  | some (before, after) ↦ some (x ∷ before, after)
  | none ↦ if x == slash then some ([], xs) else none
]

-- The parent and the name; `none` is the error.
unfoldable pub split_parent : Text → Option (Text × Text)
unfolding split_slash trim_end
split_parent abs = elim (split_slash (trim_end abs)) [
  | none ↦ none
  | some (parent, name) ↦
      if is_empty name then none else some (if is_empty parent then codes "/" else parent, name)
]

-- `data.len().div_ceil(cluster_bytes) as u32`
abbrev pub clusters_for : FatFs → Text → ℕ
clusters_for v bytes = (length bytes + cluster_bytes v - 1) / cluster_bytes v % 2 ^ 32

-- The first cluster of a new directory.
unfoldable pub dot_entries : FatFs → ℕ → ℕ → Text
unfolding write_short_entry
dot_entries v cluster parent =
    write_short_entry (codes ".") attr_directory cluster 0
    ++ (write_short_entry (codes "..") attr_directory parent 0
        ++ replicate (cluster_bytes v - 64) 0)

module _ {W : Type 0} (drive : BlockDevice W) (v : FatFs) (fuel : ℕ) where
  abbrev split_or_fail : Text → Io W (Text × Text)
  split_or_fail abs = elim (split_parent abs) [ none ↦ raise io | some parts ↦ ret parts ]

  -- The start of the methods that make an entry: the parent, its cluster, and the name.
  unfoldable pub parent_of : Text → Io W (Text × ℕ × Text)
  unfolding split_parent is_dir cluster_for
  parent_of abs = do
    (parent, name) ← split_or_fail abs
    there ← is_dir drive v fuel parent
    if there
        then (do cluster ← cluster_for drive v fuel parent; ret (parent, cluster, name))
        else raise not_a_dir

  -- `if old.cluster >= 2 { self.free_chain(old.cluster)?; }`
  abbrev free_clusters : DirEntry → Io W (Unit {0})
  free_clusters e = if leb 2 e.cluster then free_chain drive v fuel e.cluster else ret tt

  unfoldable pub truncate_file : ℕ → Text → Io W (Unit {0})
  unfolding find_in_dir free_chain delete_dir_entry add_dir_entry
  truncate_file parent_cluster name = do
    entry ← find_in_dir drive v fuel parent_cluster name
    elim entry [
      | none ↦ raise not_found
      | some e ↦
          if e.is_dir
          then raise is_a_dir
          else (free_clusters e
              >> delete_dir_entry drive v fuel parent_cluster name
              >> add_dir_entry drive v fuel parent_cluster name 0x20 0 0)
    ]

  unfoldable pub create_file : Text → Io W (Unit {0})
  unfolding parent_of truncate_file
  create_file abs = do
    (parent, parent_cluster, name) ← parent_of abs
    entry ← find_in_dir drive v fuel parent_cluster name
    elim entry [
      | some e ↦ truncate_file parent_cluster name
      | none ↦ add_dir_entry drive v fuel parent_cluster name 0 0 0
    ]

  -- The old file of that name goes first.
  unfoldable pub drop_old : ℕ → Text → Io W (Unit {0})
  unfolding find_in_dir free_chain delete_dir_entry
  drop_old parent_cluster name = do
    entry ← find_in_dir drive v fuel parent_cluster name
    elim entry [
      | none ↦ ret tt
      | some old ↦
          if old.is_dir
          then raise is_a_dir
          else (free_clusters old >> delete_dir_entry drive v fuel parent_cluster name)
    ]

  -- The clusters of the new contents; the result is the first one.
  unfoldable pub store_data : Text → Io W ℕ
  unfolding allocate_chain write_chain
  store_data bytes = if is_empty bytes then ret 0 else (do
    head ← allocate_chain drive v (clusters_for v bytes)
    write_chain drive v (suc (length bytes)) head bytes
    ret head)

  unfoldable pub write_file : Text → Text → Io W (Unit {0})
  unfolding parent_of drop_old store_data add_dir_entry
  write_file abs bytes = do
    (parent, parent_cluster, name) ← parent_of abs
    drop_old parent_cluster name
    first_cluster ← store_data bytes
    add_dir_entry drive v fuel parent_cluster name 0x20 first_cluster (length bytes % 2 ^ 32)

  -- A file that is not found has no contents yet.
  abbrev pub or_empty : Outcome Text × W → Outcome Text × W
  or_empty (done bytes, w) = (done bytes, w)
  or_empty (fail not_found, w) = (done [], w)
  or_empty (fail e, w) = (fail e, w)
  or_empty (unended, w) = (unended, w)

  unfoldable pub append_file : Text → Text → Io W (Unit {0})
  unfolding read_file write_file
  append_file abs bytes = do
    existing ← (λ w. or_empty (read_file drive v fuel abs w))
    write_file abs (existing ++ bytes)

  unfoldable pub create_dir : Text → Io W (Unit {0})
  unfolding parent_of find_in_dir allocate_chain dot_entries write_cluster add_dir_entry
  create_dir abs = do
    (parent, parent_cluster, name) ← parent_of abs
    entry ← find_in_dir drive v fuel parent_cluster name
    elim entry [
      | some e ↦ raise io
      | none ↦ do
        cluster ← allocate_chain drive v 1
        write_cluster drive v cluster
            (dot_entries v cluster (if same parent (codes "/") then 0 else parent_cluster))
        add_dir_entry drive v fuel parent_cluster name attr_directory cluster 0
    ]

  -- Only an empty directory may go.
  unfoldable pub check_empty : DirEntry → Io W (Unit {0})
  unfolding read_dir
  check_empty e =
      if e.is_dir
      then (do
        kids ← read_dir drive v fuel e.cluster
        elim kids [ [] ↦ ret tt | k ∷ ks ↦ raise io ])
      else ret tt

  unfoldable pub remove : Text → Io W (Unit {0})
  unfolding split_parent cluster_for find_in_dir check_empty free_chain delete_dir_entry
  remove abs = do
    (parent, name) ← split_or_fail abs
    parent_cluster ← cluster_for drive v fuel parent
    entry ← find_in_dir drive v fuel parent_cluster name
    elim entry [
      | none ↦ raise not_found
      | some e ↦
          check_empty e >> free_clusters e >> delete_dir_entry drive v fuel parent_cluster name
    ]
