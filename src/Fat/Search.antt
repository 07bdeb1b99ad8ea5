-- ===== src/Fat/Search.antt =====
-- `find_free_cluster` (kernel/src/fs/fat.rs): the first free cluster, on a drive that keeps what is
-- written.
use willo_main.Prelude.{
  ℕ, zero, suc, ◌+◌, ◌-◌, ◌%◌, ◌^◌, ◌≤◌, ◌<◌, ◌≡◌, ◌≢◌, ◌⊎◌, inl, inr, refl, sym, ap, ◌∙◌, subst,
  Text, true, ◌==◌, ==_iff, if◌then◌else◌, replicate, Bool-cases, mul_mono, arith,
}
use willo_main.Block.{BlockDevice, IsDisk, FailsOnlyIf, block_size}
use willo_main.Fat.{FatFs, word32, cluster_mod}
use willo_main.Fat.Io.{Outcome, fail, done, unended, ret}
use willo_main.Fat.Chain.{fat_sector, in_sector, read_sector}
use willo_main.Fat.Table.{find_free_from, find_free_cluster}
use willo_main.Fat.Sectors.{Ends, Ends-continue, Ends-fails, Same, read_sector-Ends}
use willo_main.Fat.Volume.{IsVolume, entries, fat_sector_lem, total_clusters_lem, copy_end}
use willo_main.Fat.Slots.{entry}

module _ {W E : Type 0} (drive : BlockDevice W) (block : W → ℕ → Text) (disk : IsDisk drive block)
    (bad : FailsOnlyIf E drive block) (v : FatFs) (vol : IsVolume v) where
  -- The first cluster from `low` on whose entry is 0; the drive is as before.
  pub record IsFirstFree (low c : ℕ) (w w' : W) : Type 0 where
    pub same : Same drive block disk bad w w'
    pub from : low ≤ c
    pub inside : c < entries v vol
    pub free : entry drive block disk bad v vol w c ≡ 0
    pub first : (d : ℕ) → low ≤ d → d < c → entry drive block disk bad v vol w d ≢ 0

  abbrev pub IsFull : ℕ → W → Type 0
  IsFull low w = (d : ℕ) → low ≤ d → d < entries v vol → entry drive block disk bad v vol w d ≢ 0

  pub entry-Same :
      (w w' : W) (c : ℕ)
      → Same drive block disk bad w w'
      → entry drive block disk bad v vol w' c ≡ entry drive block disk bad v vol w c
  entry-Same w w' c s = ap (λ b. word32 b (in_sector v c) % cluster_mod) (s (fat_sector v c))

  -- The sector that was read last is the one in `buf`.
  abbrev IsCached : ℕ → Text → W → Type 0
  IsCached current buf w = (current ≡ 2 ^ 32 - 1) ⊎ (buf ≡ block w current)

  -- The sector of a cluster's entry; the drive is as before.
  abbrev IsSector : ℕ → W → Text → W → Type 0
  IsSector c w s w' = (s ≡ block w (fat_sector v c)) × Same drive block disk bad w w'

  cached_read :
      (c current : ℕ) (buf : Text) (w : W)
      → c < entries v vol
      → IsCached current buf w
      → Ends E
          (λ s w'. IsSector c w s w')
          ((if fat_sector v c == current then ret buf else read_sector drive (fat_sector v c)) w)
  cached_read c current buf w h i = elim (Bool-cases (fat_sector v c == current)) [
    | inr e ↦ rw e (read_sector-Ends drive block disk bad (fat_sector v c) w)
    | inl e ↦ rw e (holds e i ∙ ap (block w) (sym ((==_iff _ _).0 e)), λ l. refl)
  ]
    where
      far : current ≡ 2 ^ 32 - 1 → fat_sector v c ≢ current
      far x g = omega (
        arith,
        x,
        g,
        fat_sector_lem v vol c h,
        copy_end v vol 0 vol.some_fats,
        vol.in_range,
        h,
        mul_mono v.sectors_per_cluster 1 (entries v vol) (omega (arith, vol.some_entries)),
        vol.some_sectors,
      )

      holds : (fat_sector v c == current) ≡ true → IsCached current buf w → buf ≡ block w current
      holds e (inl x) = absurd (far x ((==_iff _ _).0 e))
      holds e (inr x) = x

  skipped :
      (c : ℕ) (w w1 : W)
      → Same drive block disk bad w w1
      → entry drive block disk bad v vol w c ≢ 0
      → (d : ℕ) → c ≤ d
      → (c + 1 ≤ d → entry drive block disk bad v vol w1 d ≢ 0)
      → entry drive block disk bad v vol w d ≢ 0
  skipped c w w1 s ne d low k e = elim (Bool-cases (d == c)) [
    | inl g ↦ ne (ap (entry drive block disk bad v vol w) (sym ((==_iff d c).0 g)) ∙ e)
    | inr g ↦ k (ground (arith, g, low)) (entry-Same w w1 d s ∙ e)
  ]

  goes_on :
      (c : ℕ) (w w1 : W)
      → entry drive block disk bad v vol w c ≢ 0
      → Same drive block disk bad w w1
      → (r : Outcome ℕ × W) → Ends (E ⊎ IsFull (c + 1) w1) (λ f w'. IsFirstFree (c + 1) f w1 w') r
      → Ends (E ⊎ IsFull c w) (λ f w'. IsFirstFree c f w w') r
  goes_on c w w1 ne s (unended, w') k = k
  goes_on c w w1 ne s (fail e, w') (inl x) = inl x
  goes_on c w w1 ne s (fail e, w') (inr x) =
      inr (λ d low high. skipped c w w1 s ne d low (λ b. x d b high))
  goes_on c w w1 ne s (done f, w') k = record {
    same = λ l. k.same l ∙ s l;
    from = omega (arith, k.from);
    inside = k.inside;
    free = sym (entry-Same w w1 f s) ∙ k.free;
    first = λ d low high. skipped c w w1 s ne d low (λ b. k.first d b high);
  }

  find_free_from-Ends :
      (count c current : ℕ) (buf : Text) (w : W)
      → c + count ≡ entries v vol
      → IsCached current buf w
      → Ends
          (E ⊎ IsFull c w)
          (λ f w'. IsFirstFree c f w w')
          (find_free_from drive v count c current buf w)
  unfolding find_free_from
  find_free_from-Ends zero c current buf w h i =
      inr (λ d low high. absurd (omega (arith, h, low, high)))
  find_free_from-Ends (suc count) c current buf w h i =
      Ends-continue (E ⊎ IsFull c w) (λ s w'. IsSector c w s w') _
        ((if fat_sector v c == current then ret buf else read_sector drive (fat_sector v c)) w)
        (λ sector.
          if word32 sector (in_sector v c) % cluster_mod == 0
          then ret c
          else find_free_from drive v count (c + 1) (fat_sector v c) sector)
        (Ends-fails E (λ s w'. IsSector c w s w') _ (λ e. inl e)
          (cached_read c current buf w (omega (arith, h)) i))
        (λ sector w1 one. elim (Bool-cases (word32 sector (in_sector v c) % cluster_mod == 0)) [
          | inl e ↦ rw e (record {
            same = one.1;
            from = omega arith;
            inside = omega (arith, h);
            free = ap (λ b. word32 b (in_sector v c) % cluster_mod) (sym one.0) ∙ (==_iff _ _).0 e;
            first = λ d low high. absurd (omega (arith, low, high));
          })
          | inr e ↦
              let ne : entry drive block disk bad v vol w c ≢ 0 = λ q.
                ground (arith, e, ap (λ b. word32 b (in_sector v c) % cluster_mod) one.0 ∙ q) in
              rw e (
                goes_on c w w1 ne one.1
                  (find_free_from drive v count (c + 1) (fat_sector v c) sector w1)
                  (find_free_from-Ends count (c + 1) (fat_sector v c) sector w1 (omega (arith, h))
                    (inr (one.0 ∙ sym (one.1 (fat_sector v c))))))
        ])

  pub find_free_cluster-Ends :
      (w : W) → Ends (E ⊎ IsFull 2 w) (λ f w'. IsFirstFree 2 f w w') (find_free_cluster drive v w)
  unfolding find_free_cluster
  find_free_cluster-Ends w =
      subst
        (λ n.
          Ends (E ⊎ IsFull 2 w) (λ f w'. IsFirstFree 2 f w w')
            (find_free_from drive v (n - 2) 2 (2 ^ 32 - 1) (replicate block_size 0) w))
        (sym (total_clusters_lem v vol drive))
        (find_free_from-Ends (entries v vol - 2) 2 (2 ^ 32 - 1) (replicate block_size 0) w
          (omega (arith, vol.some_entries)) (inl refl))
