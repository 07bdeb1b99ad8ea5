-- ===== src/Fat/Mounted.antt =====
-- A new file on a mounted FAT volume: the calls of `Vfs` (kernel/src/fs/mod.rs) down to the drive
-- (kernel/src/fs/fat.rs).
use willo_main.Prelude.{
  ℕ, suc, ◌^◌, ◌≤◌, ◌<◌, ◌≡◌, ◌⊎◌, sym, ap, subst, Option, none, some, true, false, List, ◌∷◌, Text,
  length,
}
use willo_main.Path.{is_empty}
use willo_main.Block.{BlockDevice, IsDisk, FailsOnlyIf}
use willo_main.Fs.{FileSystem, Result, ok, err}
use willo_main.Vfs.{Vfs, resolve}
use willo_main.Vfs.Calls.{on_resolved}
use willo_main.Vfs.Calls as Calls
use willo_main.Fat.{FatFs}
use willo_main.Fat.Io.{Outcome, fail, done, unended}
use willo_main.Fat.Chain.{read_file}
use willo_main.Fat.Files.{clusters_for, write_file}
use willo_main.Fat.Names.{IsShortName}
use willo_main.Fat.Sectors.{Ends, Ends-weaken}
use willo_main.Fat.Volume.{IsVolume}
use willo_main.Fat.Slots.{IsSized}
use willo_main.Fat.Grown.{IsShort}
use willo_main.Fat.Listing.{has_free}
use willo_main.Fat.Filled.{slots}
use willo_main.Fat.Found.{IsRootPath, IsDirectory, listed}
use willo_main.Fat.Created.{read_file-write_file}
use willo_main.Fat.Backend.{fatfs, settle}

-- A call that ends: in an error only where `E`, and otherwise with `P`.
abbrev pub Settles : {A W : Type 0} → Type 0 → (A → W → Type 0) → Result A × Option W → Type 0
Settles E P (err e, some w) = E
Settles E P (ok a, some w) = P a w
Settles E P (r, none) = ⊥

settle-Settles :
    {A W : Type 0} (E : Type 0) (P : A → W → Type 0) (r : Outcome A × W)
    → Ends E P r
    → Settles E P (settle r)
settle-Settles E P (done a, w) h = h
settle-Settles E P (fail e, w) h = h
settle-Settles E P (unended, w) h = h

module _ {W E : Type 0} (drive : BlockDevice W) (block : W → ℕ → Text) (disk : IsDisk drive block)
    (bad : FailsOnlyIf E drive block) (v : FatFs) (vol : IsVolume v) where
  -- In a mount table that resolves a path to a FAT volume, on a drive that keeps what is written
  -- and whose blocks have 512 bytes, on a volume that fits into 32 bits, where the path in the
  -- mount is one in the root directory with a lower-case 8.3 name that the directory does not list
  -- yet, and the directory's chain ends, its clusters are distinct and have a free slot: the call
  -- write_file of the table with a non-empty text below 2^32 bytes ends, fails only where a call
  -- of the drive fails or fewer clusters are free than the text needs, and otherwise the table's
  -- read_file of the path ends and gives exactly the text, unless a call of the drive fails.
  pub read_file-write_file_mounted :
      (vfs : Vfs (Option W)) (fuel : ℕ) (cs : List ℕ) (abs rel name bytes : Text) (w : W)
      → resolve vfs abs ≡ ok (fatfs drive v fuel, rel)
      → IsRootPath rel name
      → IsShortName name
      → IsDirectory drive block disk bad v vol v.root_cluster cs w
      → IsSized drive block disk bad v vol w
      → listed drive block disk bad v vol name (v.root_cluster ∷ cs) w ≡ none
      → has_free (slots drive block disk bad v vol w (v.root_cluster ∷ cs)) ≡ true
      → is_empty bytes ≡ false
      → length bytes < 2 ^ 32
      → suc (length cs) < fuel
      → clusters_for v bytes ≤ fuel
      → Settles
          (E ⊎ IsShort drive block disk bad v vol (clusters_for v bytes) w)
          (λ u w'. Settles E (λ all w''. all ≡ bytes) (Calls.read_file vfs abs (some w')))
          (Calls.write_file vfs abs bytes (some w))
  unfolding Calls.read_file Calls.write_file fatfs
  read_file-write_file_mounted vfs fuel cs abs rel name bytes w owner path short d s none_listed
        free e few k enough =
      let F = E ⊎ IsShort drive block disk bad v vol (clusters_for v bytes) w in
      let reads = λ (w' : W) (r : Result (FileSystem (Option W) × Text)).
        on_resolved r (λ fs rel. fs.read_file rel) (some w') in
      let writes = λ (r : Result (FileSystem (Option W) × Text)).
        on_resolved r (λ fs rel. fs.write_file rel bytes) (some w) in
      let read_back : W → Type 0 =
        λ w'. Settles E (λ all w''. all ≡ bytes) (Calls.read_file vfs abs (some w')) in
      subst (Settles F (λ u w'. read_back w')) (sym (ap writes owner)) (
        settle-Settles F (λ u w'. read_back w') (write_file drive v fuel rel bytes w)
          (Ends-weaken F (write_file drive v fuel rel bytes w)
            (read_file-write_file drive block disk bad v vol fuel cs rel name bytes w path short d s
              none_listed free e few k enough)
            (λ u w1 h.
              subst (Settles E (λ all w''. all ≡ bytes)) (sym (ap (reads w1) owner))
                (settle-Settles E (λ all w''. all ≡ bytes) (read_file drive v fuel rel w1) h))))
