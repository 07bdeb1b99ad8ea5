-- ===== src/Fat/Allocated.antt =====
-- `allocate_chain` (kernel/src/fs/fat.rs): a new chain of clusters that were free, on a drive that keeps
-- what is written.
use willo_main.Prelude.{
  ℕ, suc, ◌%◌, ◌<◌, ◌≡◌, ◌≢◌, ◌⊎◌, inl, inr, sym, ap, ◌∙◌, subst, Text, List, [], ◌∷◌, length, All,
  All-map, ◌==◌, ==_iff, false, if◌then◌else◌, Bool-cases, arith,
}
use willo_main.Block.{BlockDevice, IsDisk, FailsOnlyIf}
use willo_main.Fat.{FatFs, word32, cluster_mod}
use willo_main.Fat.Io.{Outcome, fail, done, unended, ignore, ◌>>◌}
use willo_main.Fat.Chain.{fat_sector, in_sector}
use willo_main.Fat.Table.{fewer, update_fsinfo, write_fat_entry, allocate_from, allocate_chain}
use willo_main.Fat.Sectors.{Ends, Ends-continue}
use willo_main.Fat.Volume.{IsVolume, entries, fat_sector_lem}
use willo_main.Fat.Slots.{IsSized, entry}
use willo_main.Fat.Summed.{IsSummed, update_fsinfo-Ends}
use willo_main.Fat.Taken.{IsTaken, take_cluster}
use willo_main.Fat.Grown.{
  AreDistinct, IsChain, IsFree, IsShort, IsBeside, IsGrown, Grows, full-IsShort, allocate_from-Ends,
}

module _ {W E : Type 0} (drive : BlockDevice W) (block : W → ℕ → Text) (disk : IsDisk drive block)
    (bad : FailsOnlyIf E drive block) (v : FatFs) (vol : IsVolume v) where
  abbrev slot : W → ℕ → ℕ
  slot w c = entry drive block disk bad v vol w c

  -- A new chain: its clusters were free and are distinct, the FAT links them in their order, and no
  -- other entry and no block beside them has changed.
  pub record IsAllocated (c : ℕ) (cs : List ℕ) (w w' : W) : Type 0 where
    pub free : All (IsFree drive block disk bad v vol w) (c ∷ cs)
    pub distinct : AreDistinct (c ∷ cs)
    pub others : (d : ℕ) → d < entries v vol → All (λ b. d ≢ b) (c ∷ cs) → slot w' d ≡ slot w d
    pub beside : (l : ℕ) → IsBeside drive block disk bad v vol l (c ∷ cs) → block w' l ≡ block w l
    pub sized : IsSized drive block disk bad v vol w'
    pub chain : IsChain drive block disk bad v vol w' c cs

  module _ (c : ℕ) (w w2 : W) (taken : IsTaken drive block disk bad v vol c w w2) where
    before :
        (d : ℕ)
        → IsFree drive block disk bad v vol w2 d
        → IsFree drive block disk bad v vol w d × (d ≢ c)
    before d (a, b, e) =
        let nc : d ≢ c = λ q. omega (arith, sym e ∙ (ap (slot w2) q ∙ taken.here)) in
        ((a, b, sym (taken.others d b nc) ∙ e), nc)

    block_kept :
        (cs : List ℕ) (w' : W)
        → IsGrown drive block disk bad v vol c cs w2 w'
        → (l : ℕ) → IsBeside drive block disk bad v vol l (c ∷ cs)
        → block w' l ≡ block w l
    block_kept cs w' g l (ne, inl x) = g.beside l (ne, inl x) ∙ taken.beside l (inl x)
    block_kept cs w' g l (ne, inr (x, (o, os))) =
        g.beside l (ne, inr (x, os)) ∙ taken.beside l (inr (x, o))

    grown_from :
        (cs : List ℕ) (w' : W)
        → IsGrown drive block disk bad v vol c cs w2 w'
        → IsAllocated c cs w w'
    grown_from cs w' g = record {
      free = ((taken.low, taken.inside, taken.free), All-map (λ d f. (before d f).0) cs g.free);
      distinct = (All-map (λ d f. (before d f).1) cs g.free, g.distinct);
      others = λ d k (n, ns). g.others d k n ns ∙ taken.others d k n;
      beside = block_kept cs w' g;
      sized = g.sized;
      chain = g.chain;
    }

    IsShort-before :
        (count : ℕ)
        → IsShort drive block disk bad v vol count w2
        → IsShort drive block disk bad v vol (suc count) w
    IsShort-before count (cs, few, all) = (
      c ∷ cs,
      omega (arith, few),
      λ d a b e. elim (Bool-cases (d == c)) [
        | inl q ↦ inl ((==_iff d c).0 q)
        | inr q ↦ inr (all d a b (taken.others d b (λ r. ground (arith, q, r)) ∙ e))
      ],
    )

  -- The summary sector is not part of the FAT.
  pub slot-IsSummed :
      (w w' : W) (d : ℕ)
      → d < entries v vol
      → IsSummed drive block disk bad v vol w w'
      → slot w' d ≡ slot w d
  slot-IsSummed w w' d k s =
      ap (λ b. word32 b (in_sector v d) % cluster_mod)
        (s.0 (fat_sector v d) (λ e. omega (arith, e, fat_sector_lem v vol d k, vol.fat_behind)))

  pub IsChain-kept :
      (w w' : W) (p : ℕ) (cs : List ℕ)
      → ((d : ℕ) → d < entries v vol → slot w' d ≡ slot w d)
      → All (λ d. d < entries v vol) (p ∷ cs)
      → IsChain drive block disk bad v vol w p cs
      → IsChain drive block disk bad v vol w' p cs
  IsChain-kept w w' p [] same (k, ks) h = same p k ∙ h
  IsChain-kept w w' p (c ∷ cs) same (k, ks) (h, hs) =
      (same p k ∙ h, IsChain-kept w w' c cs same ks hs)

  IsAllocated-IsSummed :
      (c : ℕ) (cs : List ℕ) (w w1 w2 : W)
      → IsAllocated c cs w w1
      → IsSummed drive block disk bad v vol w1 w2
      → IsAllocated c cs w w2
  IsAllocated-IsSummed c cs w w1 w2 a s = record {
    free = a.free;
    distinct = a.distinct;
    others = λ d k n. slot-IsSummed w1 w2 d k s ∙ a.others d k n;
    beside = λ l o. s.0 l o.0 ∙ a.beside l o;
    sized = s.1;
    chain =
        IsChain-kept w1 w2 c cs (λ d k. slot-IsSummed w1 w2 d k s)
          (All-map (λ d f. f.1) (c ∷ cs) a.free) a.chain;
  }

  abbrev pub Allocates : ℕ → W → ℕ → W → Type 0
  Allocates n w head w' = (cs : List ℕ) × (length cs ≡ n) × IsAllocated head cs w w'

  pub allocate_chain-Ends :
      (n : ℕ) (w : W)
      → IsSized drive block disk bad v vol w
      → Ends
          (E ⊎ IsShort drive block disk bad v vol (suc n) w)
          (Allocates n w)
          (allocate_chain drive v (suc n) w)
  unfolding allocate_chain allocate_from
  allocate_chain-Ends n w s =
      let some_count : (suc n == 0) ≡ false = ground arith in
      rw some_count (
        Ends-continue (E ⊎ IsShort drive block disk bad v vol (suc n) w)
          (λ r w'. Allocates n w r.0 w') (Allocates n w) (allocate_from drive v (suc n) 0 0 w) _
          (take_cluster drive block disk bad v vol
            (E ⊎ IsShort drive block disk bad v vol (suc n) w) (λ r w'. Allocates n w r.0 w')
            (λ c.
              if 0 == 0
              then allocate_from drive v n c c
              else (write_fat_entry drive v 0 c >> allocate_from drive v n 0 c))
            w s (λ x. inl x) (λ full. inr (full-IsShort drive block disk bad v vol n w full))
            (λ c w2 taken. starts c w2 taken (allocate_from drive v n c c w2) (
              allocate_from-Ends drive block disk bad v vol n c c w2 taken.low taken.inside
                taken.here taken.sized)))
          (λ r w1 one.
            Ends-continue (E ⊎ IsShort drive block disk bad v vol (suc n) w)
              (λ u w2. IsSummed drive block disk bad v vol w1 w2) (Allocates n w)
              (ignore (update_fsinfo drive v (fewer (suc n)) r.1) w1) _
              (update_fsinfo-Ends drive block disk bad v vol _ (fewer (suc n)) r.1 w1 (one.2).sized)
              (λ u w2 two. (one.0, one.1, IsAllocated-IsSummed r.0 one.0 w w1 w2 one.2 two))))
    where
      starts :
          (c : ℕ) (w2 : W)
          → IsTaken drive block disk bad v vol c w w2
          → (r : Outcome (ℕ × ℕ) × W)
          → Ends
              (E ⊎ IsShort drive block disk bad v vol n w2)
              (Grows drive block disk bad v vol n c c w2)
              r
          → Ends (E ⊎ IsShort drive block disk bad v vol (suc n) w) (λ r w'. Allocates n w r.0 w') r
      starts c w2 taken (unended, w') k = k
      starts c w2 taken (fail x, w') (inl k) = inl k
      starts c w2 taken (fail x, w') (inr k) = inr (IsShort-before c w w2 taken n k)
      starts c w2 taken (done r, w') (same, cs, size, g) = (
        cs,
        size,
        subst (λ h. IsAllocated h cs w w') (sym same) (grown_from c w w2 taken cs w' g),
      )
