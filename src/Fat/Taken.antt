-- ===== src/Fat/Taken.antt =====
-- A free cluster is taken (kernel/src/fs/fat.rs, in `allocate_chain` and `add_dir_entry`): found, marked
-- as the end of a chain and zeroed.
use willo_main.Prelude.{
  ℕ, ◌%◌, ◌≤◌, ◌<◌, ◌≡◌, ◌≢◌, ◌⊎◌, inl, inr, ap, ◌∙◌, Text, length, replicate, length-replicate,
  arith,
}
use willo_main.Block.{BlockDevice, IsDisk, FailsOnlyIf}
use willo_main.Fat.{FatFs, word32, cluster_mod}
use willo_main.Fat.Io.{Io, ◌>>=◌, ◌>>◌}
use willo_main.Fat.Chain.{fat_sector, in_sector, cluster_to_lba, cluster_bytes}
use willo_main.Fat.Table.{
  end_of_chain, write_cluster, zero_cluster, find_free_cluster, write_fat_entry,
}
use willo_main.Fat.Sectors.{Ends, Ends-continue, Ends-fails, IsOutside, IsWritten}
use willo_main.Fat.Volume.{IsVolume, entries, fat_sector_lem, cluster_to_lba_lem, copy_end}
use willo_main.Fat.Slots.{IsSized, entry, IsEntrySet, write_fat_entry-Ends}
use willo_main.Fat.Search.{IsFirstFree, IsFull, find_free_cluster-Ends}
use willo_main.Fat.Summed.{write_cluster-Ends}

module _ {W E : Type 0} (drive : BlockDevice W) (block : W → ℕ → Text) (disk : IsDisk drive block)
    (bad : FailsOnlyIf E drive block) (v : FatFs) (vol : IsVolume v) where
  abbrev Sized : W → Type 0
  Sized w = IsSized drive block disk bad v vol w

  -- A cluster that was free is the end of a chain of its own. No other entry has changed, and no
  -- block before the FAT or in another cluster.
  pub record IsTaken (c : ℕ) (w w' : W) : Type 0 where
    pub low : 2 ≤ c
    pub inside : c < entries v vol
    pub free : entry drive block disk bad v vol w c ≡ 0
    pub here : entry drive block disk bad v vol w' c ≡ end_of_chain
    pub others :
        (d : ℕ)
        → d < entries v vol
        → d ≢ c
        → entry drive block disk bad v vol w' d ≡ entry drive block disk bad v vol w d
    pub beside :
        (l : ℕ)
        → (l < v.fat_start_lba)
          ⊎ ((v.data_start_lba ≤ l) × IsOutside l (cluster_to_lba v c) v.sectors_per_cluster)
        → block w' l ≡ block w l
    pub sized : Sized w'

  abbrev IsZeroed : ℕ → W → Unit {0} → W → Type 0
  IsZeroed c w u w' =
      IsWritten drive block disk bad v.sectors_per_cluster (cluster_to_lba v c)
        (replicate (cluster_bytes v) 0) w w'
      × Sized w'

  -- The FAT lies before the clusters.
  pub entry_kept :
      (c d : ℕ) (w w' : W)
      → 2 ≤ c
      → c < entries v vol
      → d < entries v vol
      → ((l : ℕ) → IsOutside l (cluster_to_lba v c) v.sectors_per_cluster → block w' l ≡ block w l)
      → entry drive block disk bad v vol w' d ≡ entry drive block disk bad v vol w d
  entry_kept c d w w' low h k others =
      ap (λ b. word32 b (in_sector v d) % cluster_mod)
        (others (fat_sector v d) (
          inl (
            omega (
              arith,
              fat_sector_lem v vol d k,
              cluster_to_lba_lem v vol c low h,
              copy_end v vol 0 vol.some_fats,
              k,
            ))))

  taken :
      (c : ℕ) (w w1 w2 w3 : W)
      → IsFirstFree drive block disk bad v vol 2 c w w1
      → IsEntrySet drive block disk bad v vol c end_of_chain w1 w2
      → IsZeroed c w2 tt w3
      → IsTaken c w w3
  taken c w w1 w2 w3 one two three = record {
    low = one.from;
    inside = one.inside;
    free = one.free;
    here = entry_kept c c w2 w3 one.from one.inside one.inside three.0.1 ∙ two.here;
    others = λ d k ne.
        entry_kept c d w2 w3 one.from one.inside k three.0.1
        ∙ (two.others d k ne
            ∙ ap (λ b. word32 b (in_sector v d) % cluster_mod) (one.same (fat_sector v d)));
    beside = λ l o. apart l o;
    sized = three.1;
  }
    where
      apart :
          (l : ℕ)
          → (l < v.fat_start_lba)
            ⊎ ((v.data_start_lba ≤ l) × IsOutside l (cluster_to_lba v c) v.sectors_per_cluster)
          → block w3 l ≡ block w l
      apart l (inl x) =
          three.0.1 l (
            inl (omega (arith, x, cluster_to_lba_lem v vol c one.from one.inside, vol.data_behind)))
          ∙ (two.outside l (inl x) ∙ one.same l)
      apart l (inr (x, o)) =
          three.0.1 l o ∙ (two.outside l (inr (omega (arith, x, vol.data_behind))) ∙ one.same l)

  -- Whatever follows on taking a cluster.
  pub take_cluster :
      {A : Type 0} (F : Type 0) (Q : A → W → Type 0) (rest : ℕ → Io W A) (w : W)
      → Sized w
      → (E → F)
      → (IsFull drive block disk bad v vol 2 w → F)
      → ((c : ℕ) (w' : W) → IsTaken c w w' → Ends F Q (rest c w'))
      → Ends F Q (
          (do
            c ← find_free_cluster drive v
            write_fat_entry drive v c end_of_chain
            zero_cluster drive v c
            rest c)
            w)
  unfolding zero_cluster
  take_cluster F Q rest w s broken full more =
      Ends-continue F (λ c w'. IsFirstFree drive block disk bad v vol 2 c w w') Q
        (find_free_cluster drive v w) _
        (Ends-fails (E ⊎ IsFull drive block disk bad v vol 2 w)
          (λ c w'. IsFirstFree drive block disk bad v vol 2 c w w') (find_free_cluster drive v w)
          either (find_free_cluster-Ends drive block disk bad v vol w))
        (λ c w1 one.
          Ends-continue F (λ u w'. IsEntrySet drive block disk bad v vol c end_of_chain w1 w') Q
            (write_fat_entry drive v c end_of_chain w1) _
            (Ends-fails E (λ u w'. IsEntrySet drive block disk bad v vol c end_of_chain w1 w') _
              broken
              (write_fat_entry-Ends drive block disk bad v vol c end_of_chain w1 one.inside
                (λ l. ap length (one.same l) ∙ s l)))
            (λ u w2 two.
              Ends-continue F (IsZeroed c w2) Q
                (write_cluster drive v c (replicate (cluster_bytes v) 0) w2) _
                (Ends-fails E (IsZeroed c w2) _ broken (
                  write_cluster-Ends drive block disk bad v vol c (replicate (cluster_bytes v) 0) w2
                    (length-replicate (cluster_bytes v) 0) two.sized))
                (λ u w3 three. more c w3 (taken c w w1 w2 w3 one two three))))
    where
      either : E ⊎ IsFull drive block disk bad v vol 2 w → F
      either (inl x) = broken x
      either (inr x) = full x
