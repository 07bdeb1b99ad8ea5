-- ===== src/Fat/Kept.antt =====
-- What a new file and a new slot leave as it was (kernel/src/fs/fat.rs, in `write_file`): directories,
-- entries of the FAT and the contents of clusters.
use willo_main.Prelude.{
  ℕ, ◌+◌, ◌%◌, ◌≤◌, ◌<◌, ◌≡◌, inl, sym, ap, ◌∙◌, List, [], ◌∷◌, Text, drop, All, All-map, arith,
}
use willo_main.Block.{BlockDevice, IsDisk, FailsOnlyIf}
use willo_main.Fat.{FatFs, word32, cluster_mod}
use willo_main.Fat.Chain.{cluster_to_lba, cluster_bytes, fat_sector, in_sector}
use willo_main.Fat.Sectors.{Same, gather-kept}
use willo_main.Fat.Linked.{Holds}
use willo_main.Fat.Written.{Avoids}
use willo_main.Fat.Volume.{
  IsVolume, entries, fat_sector_lem, cluster_to_lba_lem, copy_end, AreApart_distinct,
}
use willo_main.Fat.Slots.{IsSized, entry}
use willo_main.Fat.Grown.{IsChain, IsFree}
use willo_main.Fat.Freed.{IsInside}
use willo_main.Fat.Stored.{IsFile}
use willo_main.Fat.ReadBack.{IsUsed, used_entry, cluster_kept}
use willo_main.Fat.Filled.{slots, slots-kept}
use willo_main.Fat.Added.{IsOutside-of, IsChain-Same, IsAdded}
use willo_main.Fat.Found.{IsDirectory}

module _ {W E : Type 0} (drive : BlockDevice W) (block : W → ℕ → Text) (disk : IsDisk drive block)
    (bad : FailsOnlyIf E drive block) (v : FatFs) (vol : IsVolume v) where
  abbrev Sized : W → Type 0
  Sized w = IsSized drive block disk bad v vol w

  abbrev slot : W → ℕ → ℕ
  slot w c = entry drive block disk bad v vol w c

  abbrev Inside : ℕ → Type 0
  Inside c = IsInside drive block disk bad v vol c

  abbrev Used : W → ℕ → Type 0
  Used w c = IsUsed drive block disk bad v vol w c

  -- The clusters of a chain are in use.
  chain_used :
      (w : W) (p : ℕ) (cs : List ℕ)
      → All Inside (p ∷ cs)
      → IsChain drive block disk bad v vol w p cs
      → All (Used w) (p ∷ cs)
  chain_used w p [] ((a, b), is) h = ((a, b, λ e. omega (arith, sym e ∙ h)), tt)
  chain_used w p (c ∷ cs) ((a, b), is) (h, hs) =
      ((a, b, λ e. omega (arith, sym e ∙ h, is.0.0)), chain_used w c cs is hs)

  pub chain_same :
      (w w' : W) (p : ℕ) (cs : List ℕ)
      → All (λ d. slot w' d ≡ slot w d) (p ∷ cs)
      → IsChain drive block disk bad v vol w p cs
      → IsChain drive block disk bad v vol w' p cs
  chain_same w w' p [] (e, es) h = e ∙ h
  chain_same w w' p (c ∷ cs) (e, es) (h, hs) = (e ∙ h, chain_same w w' c cs es hs)

  abbrev IsKept : W → W → ℕ → Type 0
  IsKept w w' c =
      (l : ℕ)
      → cluster_to_lba v c ≤ l
      → l < cluster_to_lba v c + v.sectors_per_cluster
      → block w' l ≡ block w l

  pub Holds-kept :
      (w w' : W) (cs : List ℕ) (bytes : Text)
      → All (IsKept w w') cs
      → Holds drive block disk bad v w cs bytes
      → Holds drive block disk bad v w' cs bytes
  Holds-kept w w' [] bytes ks h = h
  Holds-kept w w' (c ∷ cs) bytes (k, ks) (here, h) = (
    gather-kept drive block disk bad w w' v.sectors_per_cluster (cluster_to_lba v c) k ∙ here,
    λ long. Holds-kept w w' cs (drop (cluster_bytes v) bytes) ks (h long),
  )

  pub IsDirectory-Same :
      (p : ℕ) (cs : List ℕ) (w w' : W)
      → Same drive block disk bad w w'
      → IsDirectory drive block disk bad v vol p cs w
      → IsDirectory drive block disk bad v vol p cs w'
  IsDirectory-Same p cs w w' s d = record {
    inside = d.inside;
    distinct = d.distinct;
    chain = IsChain-Same drive block disk bad v vol w w' p cs s d.chain;
    limited = d.limited;
  }

  -- A new file leaves a directory as it was.
  module _ (p : ℕ) (cs : List ℕ) (n head : ℕ) (bytes : Text) (w w' : W)
      (d : IsDirectory drive block disk bad v vol p cs w)
      (f : IsFile drive block disk bad v vol head n bytes w w') where
    used : All (Used w) (p ∷ cs)
    used = chain_used w p cs d.inside d.chain

    pub IsDirectory-IsFile : IsDirectory drive block disk bad v vol p cs w'
    IsDirectory-IsFile = record {
      inside = d.inside;
      distinct = d.distinct;
      chain =
          chain_same w w' p cs
            (All-map (λ c u. used_entry drive block disk bad v vol w w' head f.rest f.new c u)
              (p ∷ cs) used)
            d.chain;
      limited = d.limited;
    }

    pub slots-IsFile :
        slots drive block disk bad v vol w' (p ∷ cs) ≡ slots drive block disk bad v vol w (p ∷ cs)
    slots-IsFile = slots-kept drive block disk bad v vol w w' (p ∷ cs) (
        All-map (λ c u. cluster_kept drive block disk bad v vol w w' head f.rest f.new c u) (p ∷ cs)
          used)

    -- A block of a new cluster is none of the directory's.
    pub Avoids-dir :
        (c l : ℕ)
        → IsFree drive block disk bad v vol w c
        → cluster_to_lba v c ≤ l
        → l < cluster_to_lba v c + v.sectors_per_cluster
        → Avoids v l (p ∷ cs)
    Avoids-dir c l g a b =
        All-map
          (λ e u.
            IsOutside-of drive block disk bad v vol e c l
              (AreApart_distinct v vol e c u.0 u.1 g.0 g.1 (λ q. u.2 (ap (slot w) q ∙ g.2))) a b)
          (p ∷ cs) used

  -- The FAT lies before a directory.
  Avoids-fat :
      (d : ℕ) (cs : List ℕ) → d < entries v vol → All Inside cs → Avoids v (fat_sector v d) cs
  Avoids-fat d cs k is =
      All-map
        (λ c i. inl (
          omega (
            arith,
            fat_sector_lem v vol d k,
            cluster_to_lba_lem v vol c i.0 i.1,
            copy_end v vol 0 vol.some_fats,
            k,
          )))
        cs is

  pub slot-IsAdded :
      (cs : List ℕ) (new : List Text) (w w' : W) (d : ℕ)
      → d < entries v vol
      → All Inside cs
      → IsAdded drive block disk bad v vol cs new w w'
      → slot w' d ≡ slot w d
  slot-IsAdded cs new w w' d k is a =
      ap (λ b. word32 b (in_sector v d) % cluster_mod) (a.1 (fat_sector v d) (Avoids-fat d cs k is))
