-- ===== src/Fat/Freed.antt =====
-- `free_chain` (kernel/src/fs/fat.rs) along a chain that ends, on a drive that keeps what is written.
use willo_main.Prelude.{
  ℕ, zero, suc, ◌+◌, ◌*◌, ◌%◌, ◌≤◌, ◌<◌, ◌≡◌, ◌≢◌, ◌⊎◌, inl, inr, refl, sym, ap, ◌∙◌, subst, Text,
  List, [], ◌∷◌, length, All, All-map, false, ◌==◌, ==_iff, Bool-cases, arith,
}
use willo_main.Block.{BlockDevice, IsDisk, FailsOnlyIf}
use willo_main.Fat.{FatFs, word32, cluster_mod}
use willo_main.Fat.Io.{done, ignore}
use willo_main.Fat.Chain.{in_chain, next_cluster, fat_sector, in_sector}
use willo_main.Fat.Table.{
  end_of_chain, more, write_fat_entry, update_fsinfo, allocate_chain, free_from, free_chain,
}
use willo_main.Fat.Sectors.{Ends, Ends-continue, Ends-weaken, Same, IsOutside}
use willo_main.Fat.Linked.{next_cluster-Ends}
use willo_main.Fat.Volume.{IsVolume, entries, in_chain_lem}
use willo_main.Fat.Slots.{IsSized, entry, IsEntrySet, write_fat_entry-Ends}
use willo_main.Fat.Summed.{IsSummed, update_fsinfo-Ends}
use willo_main.Fat.Grown.{AreDistinct, IsChain, IsFree, IsShort}
use willo_main.Fat.Allocated.{slot-IsSummed, allocate_chain-Ends}

module _ {W E : Type 0} (drive : BlockDevice W) (block : W → ℕ → Text) (disk : IsDisk drive block)
    (bad : FailsOnlyIf E drive block) (v : FatFs) (vol : IsVolume v) where
  abbrev slot : W → ℕ → ℕ
  slot w c = entry drive block disk bad v vol w c

  abbrev pub IsInside : ℕ → Type 0
  IsInside d = (2 ≤ d) × (d < entries v vol)

  -- The entries of the clusters are 0, no other entry has changed, and no block outside of the FAT but
  -- the summary.
  pub record IsFreed (cs : List ℕ) (w w' : W) : Type 0 where
    pub zeros : All (λ c. slot w' c ≡ 0) cs
    pub others : (d : ℕ) → d < entries v vol → All (λ c. d ≢ c) cs → slot w' d ≡ slot w d
    pub outside :
        (l : ℕ)
        → l ≢ 1
        → IsOutside l v.fat_start_lba (v.num_fats * v.sectors_per_fat)
        → block w' l ≡ block w l
    pub sized : IsSized drive block disk bad v vol w'

  slot-Same : (w w' : W) (d : ℕ) → Same drive block disk bad w w' → slot w' d ≡ slot w d
  slot-Same w w' d s = ap (λ b. word32 b (in_sector v d) % cluster_mod) (s (fat_sector v d))

  -- The chain behind a cluster whose entry is cleared.
  behind :
      (p q : ℕ) (cs : List ℕ) (w w' : W)
      → q < entries v vol
      → q ≢ p
      → All IsInside cs
      → All (λ d. d ≢ p) cs
      → ((d : ℕ) → d < entries v vol → d ≢ p → slot w' d ≡ slot w d)
      → IsChain drive block disk bad v vol w q cs
      → IsChain drive block disk bad v vol w' q cs
  behind p q [] w w' k n is ns same h = same q k n ∙ h
  behind p q (c ∷ cs) w w' k n (i, is) (m, ns) same (h, hs) =
      (same q k n ∙ h, behind p c cs w w' i.1 m is ns same hs)

  IsFreed-more :
      (p : ℕ) (cs : List ℕ) (w w1 w2 w3 : W)
      → p < entries v vol
      → All (λ d. d ≢ p) cs
      → Same drive block disk bad w w1
      → IsEntrySet drive block disk bad v vol p 0 w1 w2
      → IsFreed cs w2 w3
      → IsFreed (p ∷ cs) w w3
  IsFreed-more p cs w w1 w2 w3 k ns same one f = record {
    zeros = (f.others p k (All-map (λ d n e. n (sym e)) cs ns) ∙ one.here, f.zeros);
    others = λ d i (n, ms). f.others d i ms ∙ (one.others d i n ∙ slot-Same w w1 d same);
    outside = λ l n o. f.outside l n o ∙ (one.outside l o ∙ same l);
    sized = f.sized;
  }

  -- Nothing is left of the chain: the last entry does not name a cluster.
  stops : (fuel n : ℕ) (w : W) → free_from drive v (suc fuel) end_of_chain n w ≡ (done n, w)
  unfolding free_from in_chain
  stops fuel n w = refl

  abbrev Frees : List ℕ → ℕ → W → ℕ → W → Type 0
  Frees cs n w k w' = (k ≡ n + length cs) × IsFreed cs w w'

  zeros_kept :
      (cs : List ℕ) (w w' : W)
      → All (λ c. c < entries v vol) cs
      → IsSummed drive block disk bad v vol w w'
      → All (λ c. slot w c ≡ 0) cs
      → All (λ c. slot w' c ≡ 0) cs
  zeros_kept [] w w' is s zs = tt
  zeros_kept (c ∷ cs) w w' (i, is) s (z, zs) =
      (slot-IsSummed drive block disk bad v vol w w' c i s ∙ z, zeros_kept cs w w' is s zs)

  -- Every entry is as it was: those of the clusters were free, the others are kept.
  was_zero_or_new :
      (cs : List ℕ) (w w'' : W) (d : ℕ)
      → All (IsFree drive block disk bad v vol w) cs
      → All (λ c. slot w'' c ≡ 0) cs
      → (slot w'' d ≡ slot w d) ⊎ All (λ c. d ≢ c) cs
  was_zero_or_new [] w w'' d fs zs = inr tt
  was_zero_or_new (c ∷ cs) w w'' d (f, fs) (z, zs) = elim (Bool-cases (d == c)) [
    | inl e ↦
        let q = (==_iff d c).0 e in inl (ap (slot w'') q ∙ (z ∙ (sym (f.2) ∙ ap (slot w) (sym q))))
    | inr e ↦ elim (was_zero_or_new cs w w'' d fs zs) [
      | inl r ↦ inl r
      | inr r ↦ inr ((λ q. ground (arith, e, q)), r)
    ]
  ]

  restored :
      (cs : List ℕ) (w w' w'' : W) (d : ℕ)
      → All (IsFree drive block disk bad v vol w) cs
      → All (λ c. slot w'' c ≡ 0) cs
      → d < entries v vol
      → ((d : ℕ) → d < entries v vol → All (λ c. d ≢ c) cs → slot w' d ≡ slot w d)
      → ((d : ℕ) → d < entries v vol → All (λ c. d ≢ c) cs → slot w'' d ≡ slot w' d)
      → slot w'' d ≡ slot w d
  restored cs w w' w'' d fs zs a new freed = elim (was_zero_or_new cs w w'' d fs zs) [
    | inl r ↦ r
    | inr r ↦ freed d a r ∙ new d a r
  ]

  -- One round, with what follows it.
  free_step :
      (P : ℕ → W → Type 0) (p fuel n : ℕ) (w : W)
      → IsInside p
      → IsSized drive block disk bad v vol w
      → ((w1 w2 : W)
          → Same drive block disk bad w w1
          → IsEntrySet drive block disk bad v vol p 0 w1 w2
          → Ends E P (free_from drive v fuel (slot w p) (n + 1) w2))
      → Ends E P (free_from drive v (suc fuel) p n w)
  unfolding free_from
  free_step P p fuel n w i s go = rw (in_chain_lem v vol p i.0 i.1) (
      Ends-continue E (λ next w1. (next ≡ slot w p) × Same drive block disk bad w w1) P
        (next_cluster drive v p w) _ (next_cluster-Ends drive block disk bad v p w)
        (λ next w1 one.
          Ends-continue E (λ u w2. IsEntrySet drive block disk bad v vol p 0 w1 w2) P
            (write_fat_entry drive v p 0 w1) _
            (write_fat_entry-Ends drive block disk bad v vol p 0 w1 i.1
              (λ l. ap length (one.1 l) ∙ s l))
            (λ u w2 two.
              subst (λ q. Ends E P (free_from drive v fuel q (n + 1) w2)) (sym one.0)
                (go w1 w2 one.1 two))))

  free_from-Ends :
      (cs : List ℕ) (p fuel n : ℕ) (w : W)
      → All IsInside (p ∷ cs)
      → AreDistinct (p ∷ cs)
      → IsChain drive block disk bad v vol w p cs
      → IsSized drive block disk bad v vol w
      → suc (length cs) < fuel
      → Ends E (Frees (p ∷ cs) n w) (free_from drive v fuel p n w)
  free_from-Ends cs p zero n w i d h s k = absurd (omega (arith, k))
  free_from-Ends cs p (suc zero) n w i d h s k = absurd (omega (arith, k))
  free_from-Ends [] p (suc (suc fuel)) n w (i, is) d h s k =
      free_step (Frees (p ∷ []) n w) p (suc fuel) n w i s (λ w1 w2 one two.
        subst (λ q. Ends E (Frees (p ∷ []) n w) (free_from drive v (suc fuel) q (n + 1) w2)) (sym h)
          (subst (Ends E (Frees (p ∷ []) n w)) (sym (stops fuel (n + 1) w2))
            (omega arith, IsFreed-more p [] w w1 w2 w2 i.1 tt one two (nothing w2 two.sized))))
    where
      nothing : (w2 : W) → IsSized drive block disk bad v vol w2 → IsFreed [] w2 w2
      nothing w2 s = record {
        zeros = tt;
        others = λ d a b. refl;
        outside = λ l a b. refl;
        sized = s;
      }
  free_from-Ends (c ∷ cs) p (suc (suc fuel)) n w (i, is) (d, ds) (h, hs) s k =
      free_step (Frees (p ∷ c ∷ cs) n w) p (suc fuel) n w i s (λ w1 w2 one two.
        subst (λ q. Ends E (Frees (p ∷ c ∷ cs) n w) (free_from drive v (suc fuel) q (n + 1) w2))
          (sym h)
          (Ends-weaken E (free_from drive v (suc fuel) c (n + 1) w2)
            (free_from-Ends cs c (suc fuel) (n + 1) w2 is ds
              (behind p c cs w w2 is.0.1 d.0 is.1 d.1
                (λ e a b. two.others e a b ∙ slot-Same w w1 e one) hs)
              two.sized (omega (arith, k)))
            (λ m w3 f. (omega (arith, f.0), IsFreed-more p (c ∷ cs) w w1 w2 w3 i.1 d one two f.1))))

  pub free_chain-Ends :
      (cs : List ℕ) (p fuel : ℕ) (w : W)
      → All IsInside (p ∷ cs)
      → AreDistinct (p ∷ cs)
      → IsChain drive block disk bad v vol w p cs
      → IsSized drive block disk bad v vol w
      → suc (length cs) < fuel
      → Ends E (λ u w'. IsFreed (p ∷ cs) w w') (free_chain drive v fuel p w)
  unfolding free_chain
  free_chain-Ends cs p fuel w i d h s k =
      Ends-continue E (Frees (p ∷ cs) 0 w) (λ u w'. IsFreed (p ∷ cs) w w')
        (free_from drive v fuel p 0 w) _ (free_from-Ends cs p fuel 0 w i d h s k)
        (λ n w1 one.
          let some_freed : (n == 0) ≡ false = ground (arith, one.0) in
          rw some_freed (
            Ends-weaken E (ignore (update_fsinfo drive v (more n) 0) w1)
              (update_fsinfo-Ends drive block disk bad v vol E (more n) 0 w1 (one.1).sized)
              (λ u w2 two. summed w1 w2 one.1 two)))
    where
      summed :
          (w1 w2 : W)
          → IsFreed (p ∷ cs) w w1
          → IsSummed drive block disk bad v vol w1 w2
          → IsFreed (p ∷ cs) w w2
      summed w1 w2 f two = record {
        zeros = zeros_kept (p ∷ cs) w1 w2 (All-map (λ c a. a.1) (p ∷ cs) i) two f.zeros;
        others = λ d a b. slot-IsSummed drive block disk bad v vol w1 w2 d a two ∙ f.others d a b;
        outside = λ l n o. two.0 l n ∙ f.outside l n o;
        sized = two.1;
      }

  -- On a drive that keeps what is written and whose blocks have 512 bytes, on a volume that fits
  -- into 32 bits, after an allocate_chain of at least one cluster, which fails only where a call
  -- of the drive fails or too few clusters are free, free_chain of the new chain ends, with more
  -- rounds than clusters, and leaves every entry of the FAT as it was before both, unless a call
  -- of the drive fails.
  pub free_chain-allocate_chain :
      (n fuel : ℕ) (w : W)
      → IsSized drive block disk bad v vol w
      → suc n < fuel
      → Ends
          (E ⊎ IsShort drive block disk bad v vol (suc n) w)
          (λ head w'.
            Ends E
              (λ u w''. (d : ℕ) → d < entries v vol → slot w'' d ≡ slot w d)
              (free_chain drive v fuel head w'))
          (allocate_chain drive v (suc n) w)
  free_chain-allocate_chain n fuel w s k =
      Ends-weaken _ (allocate_chain drive v (suc n) w)
        (allocate_chain-Ends drive block disk bad v vol n w s)
        (λ head w' (cs, count, new).
          Ends-weaken E (free_chain drive v fuel head w')
            (free_chain-Ends cs head fuel w' (All-map (λ c f. (f.0, f.1)) (head ∷ cs) new.free)
              new.distinct new.chain new.sized (omega (arith, count, k)))
            (λ u w'' f d a. restored (head ∷ cs) w w' w'' d new.free f.zeros a new.others f.others))
