-- ===== src/Fat/Filled.antt =====
-- The slots of a directory's clusters, and the loop of `add_dir_entry` over the sectors of a cluster
-- (kernel/src/fs/fat.rs), on a drive that keeps what is written.
use willo_main.Prelude.{
  ℕ, zero, suc, ◌+◌, ◌≤◌, ◌<◌, ◌≡◌, ◌≢◌, inl, inr, refl, sym, ap, ◌∙◌, subst, Bool, true, false,
  none, some, List, [], ◌∷◌, ◌++◌, Text, length, All, Option-cases, arith,
}
use willo_main.Block.{BlockDevice, IsDisk, FailsOnlyIf}
use willo_main.Fat.{FatFs}
use willo_main.Fat.Chain.{chunks, read_sector, write_sector, cluster_to_lba}
use willo_main.Fat.Table.{splice}
use willo_main.Fat.Words.{length-splice}
use willo_main.Fat.Directory.{free_slot, fill_slot}
use willo_main.Fat.Sectors.{
  Ends, Ends-continue, Ends-weaken, Same, IsOutside, IsOutside-rest, read_sector-Ends,
  write_sector-Ends,
}
use willo_main.Fat.Volume.{IsVolume}
use willo_main.Fat.Slots.{IsSized, write_one}
use willo_main.Fat.Listing.{fill, fill-append_some, fill-append_none, fill-append_never}
use willo_main.Fat.Pieces.{IsFreeAt, free_slot_lem}

module _ {W E : Type 0} (drive : BlockDevice W) (block : W → ℕ → Text) (disk : IsDisk drive block)
    (bad : FailsOnlyIf E drive block) (v : FatFs) (vol : IsVolume v) where
  abbrev Sized : W → Type 0
  Sized w = IsSized drive block disk bad v vol w

  -- The slots of `count` sectors from `lba` on, and those of a chain of clusters.
  abbrev pub slots_run : W → ℕ → ℕ → List Text
  slots_run w zero lba = []
  slots_run w (suc count) lba = chunks 16 (block w lba) ++ slots_run w count (lba + 1)

  abbrev pub slots : W → List ℕ → List Text
  slots w [] = []
  slots w (c ∷ cs) = slots_run w v.sectors_per_cluster (cluster_to_lba v c) ++ slots w cs

  pub slots_run-kept :
      (w w' : W) (count lba : ℕ)
      → ((l : ℕ) → lba ≤ l → l < lba + count → block w' l ≡ block w l)
      → slots_run w' count lba ≡ slots_run w count lba
  slots_run-kept w w' zero lba h = refl
  slots_run-kept w w' (suc count) lba h =
      ap (λ b. chunks 16 b ++ slots_run w' count (lba + 1)) (h lba (omega arith) (omega arith))
      ∙ ap (λ t. chunks 16 (block w lba) ++ t)
          (slots_run-kept w w' count (lba + 1) (λ l a b. h l (omega arith) (omega arith)))

  pub slots-kept :
      (w w' : W) (cs : List ℕ)
      → All
          (λ c.
            (l : ℕ)
            → cluster_to_lba v c ≤ l
            → l < cluster_to_lba v c + v.sectors_per_cluster
            → block w' l ≡ block w l)
          cs
      → slots w' cs ≡ slots w cs
  slots-kept w w' [] h = refl
  slots-kept w w' (c ∷ cs) (h, hs) =
      ap (λ t. t ++ slots w' cs) (slots_run-kept w w' v.sectors_per_cluster (cluster_to_lba v c) h)
      ∙ ap (λ t. slots_run w v.sectors_per_cluster (cluster_to_lba v c) ++ t)
          (slots-kept w w' cs hs)

  -- What the loop over the sectors of a cluster has done.
  abbrev pub IsTried : ℕ → ℕ → Text → W → Bool → W → Type 0
  IsTried count lba x w false w' =
      (fill x (slots_run w count lba) ≡ none) × Same drive block disk bad w w'
  IsTried count lba x w true w' =
      (fill x (slots_run w count lba) ≡ some (slots_run w' count lba))
      × ((l : ℕ) → IsOutside l lba count → block w' l ≡ block w l)
      × Sized w'

  -- The first sector has no free slot.
  IsTried-more :
      (count lba : ℕ) (x : Text) (w w1 : W) (b : Bool) (w' : W)
      → fill x (chunks 16 (block w lba)) ≡ none
      → Same drive block disk bad w w1
      → IsTried count (lba + 1) x w1 b w'
      → IsTried (suc count) lba x w b w'
  IsTried-more count lba x w w1 false w' n s (h, k) = (
    fill-append_never x (chunks 16 (block w lba)) (slots_run w count (lba + 1)) n
        (ap (fill x) (sym (slots_run-kept w w1 count (lba + 1) (λ l a b. s l))) ∙ h),
    λ l. k l ∙ s l,
  )
  IsTried-more count lba x w w1 true w' n s (h, k, sized) = (
    fill-append_none x (chunks 16 (block w lba)) (slots_run w count (lba + 1))
          (slots_run w' count (lba + 1)) n
          (ap (fill x) (sym (slots_run-kept w w1 count (lba + 1) (λ l a b. s l))) ∙ h)
        ∙ ap (λ t. some (chunks 16 t ++ slots_run w' count (lba + 1)))
            (sym (k lba (inl (omega arith)) ∙ s lba)),
    λ l o. k l (IsOutside-rest l lba count o).0 ∙ s l,
    sized,
  )

  -- A slot of the first sector is written.
  IsTried-here :
      (count lba o : ℕ) (x buf : Text) (w w1 w2 : W)
      → buf ≡ block w lba
      → Same drive block disk bad w w1
      → length x ≡ 32
      → Sized w
      → IsFreeAt 16 0 buf x (some o)
      → (block w2 lba ≡ splice buf o x) × ((l : ℕ) → l ≢ lba → block w2 l ≡ block w1 l)
      → IsTried (suc count) lba x w true w2
  IsTried-here count lba o x buf w w1 w2 same s size sized (low, high, h) (here, others) = (
    fill-append_some x (chunks 16 (block w lba)) (chunks 16 (splice buf o x))
          (slots_run w count (lba + 1)) (ap (λ b. fill x (chunks 16 b)) (sym same) ∙ h)
        ∙ (ap (λ b. some (chunks 16 b ++ slots_run w count (lba + 1))) (sym here)
            ∙ ap (λ t. some (chunks 16 (block w2 lba) ++ t))
                (sym (
                  slots_run-kept w w2 count (lba + 1)
                    (λ l a b. others l (λ e. omega (arith, e, a)) ∙ s l)))),
    λ l k. others l (IsOutside-rest l lba count k).1 ∙ s l,
    write_one drive block disk bad v vol lba (splice buf o x) w1 w2 (λ l. ap length (s l) ∙ sized l)
        (length-splice buf x o (omega (arith, high, size)) ∙ (ap length same ∙ sized lba))
        (here, others),
  )

  pub fill_slot-Ends :
      (count lba : ℕ) (x : Text) (w : W)
      → length x ≡ 32
      → Sized w
      → Ends E (IsTried count lba x w) (fill_slot drive count lba x w)
  unfolding fill_slot
  fill_slot-Ends zero lba x w size s = (refl, λ l. refl)
  fill_slot-Ends (suc count) lba x w size s =
      Ends-continue E (λ buf w1. (buf ≡ block w lba) × Same drive block disk bad w w1)
        (IsTried (suc count) lba x w) (read_sector drive lba w) _
        (read_sector-Ends drive block disk bad lba w)
        (λ buf w1 one.
          let long : length buf ≡ 512 = ap length one.0 ∙ s lba in
          let at : IsFreeAt 16 0 buf x (free_slot 16 0 buf) =
            free_slot_lem 16 0 buf x size (omega (arith, long)) in
          elim (Option-cases (free_slot 16 0 buf)) [
            | inl e ↦
                let none_here : fill x (chunks 16 (block w lba)) ≡ none =
                  ap (λ b. fill x (chunks 16 b)) (sym one.0) ∙ subst (IsFreeAt 16 0 buf x) e at in
                rw e (
                  Ends-weaken E (fill_slot drive count (lba + 1) x w1)
                    (fill_slot-Ends count (lba + 1) x w1 size (λ l. ap length (one.1 l) ∙ s l))
                    (λ b w' t. IsTried-more count lba x w w1 b w' none_here one.1 t))
            | inr (o, e) ↦ rw e (
                Ends-continue E
                  (λ u w2.
                    (block w2 lba ≡ splice buf o x) × ((l : ℕ) → l ≢ lba → block w2 l ≡ block w1 l))
                  (IsTried (suc count) lba x w) (write_sector drive lba (splice buf o x) w1) _
                  (write_sector-Ends drive block disk bad lba (splice buf o x) w1)
                  (λ u w2 two.
                    IsTried-here count lba o x buf w w1 w2 one.0 one.1 size s
                      (subst (IsFreeAt 16 0 buf x) e at) two))
          ])
