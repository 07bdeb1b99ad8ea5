-- ===== src/Fat/ReadBack.antt =====
-- What `store_data` (kernel/src/fs/fat.rs, in `write_file`) leaves readable: the new file, and every
-- other one.
use willo_main.Prelude.{
  ℕ, suc, ◌+◌, ◌^◌, ◌≤◌, ◌<◌, ◌≡◌, ◌≢◌, ◌⊎◌, inr, sym, ap, ◌∙◌, subst, false, Text, List, [], ◌∷◌,
  length, take, drop, All, All-map, arith,
}
use willo_main.Path.{is_empty}
use willo_main.Block.{BlockDevice, IsDisk, FailsOnlyIf}
use willo_main.Fat.{FatFs}
use willo_main.Fat.Chain.{read_chain, cluster_to_lba, cluster_bytes}
use willo_main.Fat.Files.{clusters_for, store_data}
use willo_main.Fat.Sectors.{Ends, Ends-weaken, gather-kept}
use willo_main.Fat.Linked.{IsLinked, Holds, read_chain-Ends}
use willo_main.Fat.Written.{AreApart, Avoids-apart}
use willo_main.Fat.Volume.{IsVolume, entries, cluster_to_lba_lem, AreApart_distinct}
use willo_main.Fat.Slots.{IsSized, entry}
use willo_main.Fat.Grown.{IsFree, IsShort}
use willo_main.Fat.Allocated.{IsAllocated}
use willo_main.Fat.Fresh.{IsLinked-new, clusters_for_lem}
use willo_main.Fat.Stored.{store_data-Ends}

module _ {W E : Type 0} (drive : BlockDevice W) (block : W → ℕ → Text) (disk : IsDisk drive block)
    (bad : FailsOnlyIf E drive block) (v : FatFs) (vol : IsVolume v) where
  -- On a drive that keeps what is written and whose blocks have 512 bytes, on a volume that fits
  -- into 32 bits, store_data of a non-empty text below 2^32 bytes fails only where a call of the
  -- drive fails or fewer clusters are free than the text needs. It gives the first of that many
  -- clusters, which were free, are distinct and are linked in the FAT in their order; no other
  -- entry of the FAT has changed, and no block before the FAT but the summary or in another
  -- cluster; and reading the chain up to the length of the text, with as many rounds as clusters,
  -- ends and begins with the text, unless a call of the drive fails.
  pub read_chain-store_data :
      (fuel k : ℕ) (bytes : Text) (w : W)
      → IsSized drive block disk bad v vol w
      → is_empty bytes ≡ false
      → length bytes < 2 ^ 32
      → clusters_for v bytes ≤ k
      → Ends
          (E ⊎ IsShort drive block disk bad v vol (clusters_for v bytes) w)
          (λ head w'.
            (rest : List ℕ) × (suc (length rest) ≡ clusters_for v bytes)
            × IsAllocated drive block disk bad v vol head rest w w'
            × Ends E
                (λ all w''. take (length bytes) all ≡ bytes)
                (read_chain drive v k head (length bytes) [] w'))
          (store_data drive v fuel bytes w)
  read_chain-store_data fuel k bytes w s e h enough =
      let (n, count, fits, more) = clusters_for_lem drive block disk bad v vol bytes e h in
      subst
        (λ m.
          Ends (E ⊎ IsShort drive block disk bad v vol m w)
            (λ head w'.
              (rest : List ℕ) × (suc (length rest) ≡ m)
              × IsAllocated drive block disk bad v vol head rest w w'
              × Ends E (λ all w''. take (length bytes) all ≡ bytes)
                  (read_chain drive v k head (length bytes) [] w'))
            (store_data drive v fuel bytes w))
        (sym count)
        (Ends-weaken _ (store_data drive v fuel bytes w)
          (store_data-Ends drive block disk bad v vol fuel n bytes w s e fits more count)
          (λ head w' f. (
            f.rest,
            ap suc f.count,
            f.new,
            read_chain-Ends drive block disk bad v f.rest k head (length bytes) [] bytes w'
                (IsLinked-new drive block disk bad v vol w w' head f.rest f.new.free f.new.chain)
                f.holds (omega (arith, f.count, enough, count)) (omega arith),
          )))

  -- A cluster that another file or directory uses.
  abbrev pub IsUsed : W → ℕ → Type 0
  IsUsed w d = (2 ≤ d) × (d < entries v vol) × (entry drive block disk bad v vol w d ≢ 0)

  abbrev pub SameEntry : W → W → ℕ → Type 0
  SameEntry w w' d = entry drive block disk bad v vol w' d ≡ entry drive block disk bad v vol w d

  used_new :
      (w : W) (d : ℕ) (cs : List ℕ)
      → IsUsed w d
      → All (IsFree drive block disk bad v vol w) cs
      → All (λ c. d ≢ c) cs
  used_new w d cs (a, b, n) fs =
      All-map (λ c f e. n (ap (entry drive block disk bad v vol w) e ∙ f.2)) cs fs

  used_apart :
      (w : W) (d : ℕ) (cs : List ℕ)
      → IsUsed w d
      → All (IsFree drive block disk bad v vol w) cs
      → All (AreApart v d) cs
  used_apart w d cs (a, b, n) fs =
      All-map
        (λ c f.
          AreApart_distinct v vol d c a b f.0 f.1
            (λ e. n (ap (entry drive block disk bad v vol w) e ∙ f.2)))
        cs fs

  module _ (w w' : W) (head : ℕ) (cs : List ℕ)
      (new : IsAllocated drive block disk bad v vol head cs w w') where
    pub used_entry : (d : ℕ) → IsUsed w d → SameEntry w w' d
    used_entry d u = new.others d u.1 (used_new w d (head ∷ cs) u new.free)

    pub IsLinked-IsAllocated :
        (ds : List ℕ)
        → All (IsUsed w) ds
        → IsLinked drive block disk bad v w ds
        → IsLinked drive block disk bad v w' ds
    IsLinked-IsAllocated [] us h = tt
    IsLinked-IsAllocated (d ∷ []) us h = h
    IsLinked-IsAllocated (d ∷ e ∷ ds) (u, us) (a, b, h) =
        (a, used_entry d u ∙ b, IsLinked-IsAllocated (e ∷ ds) us h)

    pub cluster_kept :
        (d : ℕ)
        → IsUsed w d
        → (l : ℕ) → cluster_to_lba v d ≤ l
        → l < cluster_to_lba v d + v.sectors_per_cluster
        → block w' l ≡ block w l
    cluster_kept d u l a b =
        let at = cluster_to_lba_lem v vol d u.0 u.1 in
        new.beside l (
          (λ e. omega (arith, e, a, at, vol.data_behind, vol.fat_behind)),
          inr (
            omega (arith, a, at),
            Avoids-apart v d l (head ∷ cs) (used_apart w d (head ∷ cs) u new.free) a b,
          ),
        )

    pub Holds-IsAllocated :
        (ds : List ℕ) (bytes : Text)
        → All (IsUsed w) ds
        → Holds drive block disk bad v w ds bytes
        → Holds drive block disk bad v w' ds bytes
    Holds-IsAllocated [] bytes us h = h
    Holds-IsAllocated (d ∷ ds) bytes (u, us) (here, h) = (
      gather-kept drive block disk bad w w' v.sectors_per_cluster (cluster_to_lba v d)
            (cluster_kept d u)
          ∙ here,
      λ k. Holds-IsAllocated ds (drop (cluster_bytes v) bytes) us (h k),
    )

  -- On a drive that keeps what is written and whose blocks have 512 bytes, on a volume that fits
  -- into 32 bits, if a linked chain of clusters in use holds a text, then it holds it after a
  -- store_data of another non-empty text below 2^32 bytes: where store_data succeeds, reading the
  -- chain up to the length of its text ends and begins with this text, unless a call of the drive
  -- fails.
  pub read_chain-store_data_other :
      (fuel d k : ℕ) (ds : List ℕ) (bytes old : Text) (w : W)
      → IsSized drive block disk bad v vol w
      → is_empty bytes ≡ false
      → length bytes < 2 ^ 32
      → All (IsUsed w) (d ∷ ds)
      → IsLinked drive block disk bad v w (d ∷ ds)
      → Holds drive block disk bad v w (d ∷ ds) old
      → length ds < k
      → Ends
          (E ⊎ IsShort drive block disk bad v vol (clusters_for v bytes) w)
          (λ head w'.
            Ends E
              (λ all w''. take (length old) all ≡ old)
              (read_chain drive v k d (length old) [] w'))
          (store_data drive v fuel bytes w)
  read_chain-store_data_other fuel d k ds bytes old w s e h used linked holds enough =
      Ends-weaken _ (store_data drive v fuel bytes w)
        (read_chain-store_data fuel (clusters_for v bytes) bytes w s e h (omega arith))
        (λ head w' (rest, count, new, read).
          read_chain-Ends drive block disk bad v ds k d (length old) [] old w'
            (IsLinked-IsAllocated w w' head rest new (d ∷ ds) used linked)
            (Holds-IsAllocated w w' head rest new (d ∷ ds) old used holds) enough (omega arith))
