-- ===== src/Fat/Sectors.antt =====
-- Runs of sectors (kernel/src/fs/fat.rs, `read_chain` and `write_cluster`) on a drive that keeps what
-- is written. A call may fail at any sector.
use willo_main.Prelude.{
  ℕ, zero, suc, ◌+◌, ◌*◌, ◌≤◌, ◌<◌, ◌≡◌, ◌≢◌, ◌⊎◌, inl, inr, refl, ◌∙◌, Text, [], ◌∷◌, ◌++◌, length,
  take, drop, take-append-drop, length-drop, arith,
}
use willo_main.Block.{BlockDevice, BlockResult, failed, moved, IsDisk, FailsOnlyIf, block_size}
use willo_main.Fat.Io.{Io, Outcome, fail, done, unended, continue, from_block}
use willo_main.Fat.Chain.{read_sector, write_sector, read_sectors}
use willo_main.Fat.Table.{write_sectors}

-- A call ends: it fails only if `E` holds, and where it succeeds, its result and the state after it
-- are so.
abbrev pub Ends : {A W : Type 0} → Type 0 → (A → W → Type 0) → Outcome A × W → Type 0
Ends E P (fail e, w) = E
Ends E P (done a, w) = P a w
Ends E P (unended, w) = ⊥

pub Ends-continue :
    {A B W : Type 0} (E : Type 0) (P : A → W → Type 0) (Q : B → W → Type 0) (r : Outcome A × W)
    (rest : A → Io W B)
    → Ends E P r
    → ((a : A) (w : W) → P a w → Ends E Q (rest a w))
    → Ends E Q (continue r rest)
Ends-continue E P Q (fail e, w) rest h k = h
Ends-continue E P Q (done a, w) rest h k = k a w h
Ends-continue E P Q (unended, w) rest h k = h

pub Ends-weaken :
    {A W : Type 0} (E : Type 0) {P Q : A → W → Type 0} (r : Outcome A × W)
    → Ends E P r
    → ((a : A) (w : W) → P a w → Q a w)
    → Ends E Q r
Ends-weaken E (fail e, w) h k = h
Ends-weaken E (done a, w) h k = k a w h
Ends-weaken E (unended, w) h k = h

pub Ends-fails :
    {A W : Type 0} (E : Type 0) {F : Type 0} (P : A → W → Type 0) (r : Outcome A × W)
    → (E → F)
    → Ends E P r
    → Ends F P r
Ends-fails E P (fail e, w) f h = f h
Ends-fails E P (done a, w) f h = h
Ends-fails E P (unended, w) f h = h

-- A sector outside of a run.
abbrev pub IsOutside : ℕ → ℕ → ℕ → Type 0
IsOutside l lba count = (l < lba) ⊎ (lba + count ≤ l)

pub IsOutside-rest :
    (l lba count : ℕ) → IsOutside l lba (suc count) → IsOutside l (lba + 1) count × (l ≢ lba)
IsOutside-rest l lba count (inl h) = (inl (omega (arith, h)), omega (arith, h))
IsOutside-rest l lba count (inr h) = (inr (omega (arith, h)), omega (arith, h))

module _ {W E : Type 0} (drive : BlockDevice W) (block : W → ℕ → Text) (disk : IsDisk drive block)
    (bad : FailsOnlyIf E drive block) where
  abbrev pub Same : W → W → Type 0
  Same w w' = (l : ℕ) → block w' l ≡ block w l

  -- The bytes of a run of sectors.
  abbrev pub gather : W → ℕ → ℕ → Text
  gather w zero lba = []
  gather w (suc count) lba = block w lba ++ gather w count (lba + 1)

  pub gather-kept :
      (w w' : W) (count lba : ℕ)
      → ((l : ℕ) → lba ≤ l → l < lba + count → block w' l ≡ block w l)
      → gather w' count lba ≡ gather w count lba
  gather-kept w w' zero lba h = refl
  gather-kept w w' (suc count) lba h =
      rw
        (
          h lba (omega arith) (omega arith),
          gather-kept w w' count (lba + 1) (λ l a b. h l (omega arith) (omega arith)),
        )
        refl

  pub read_sector-Ends :
      (lba : ℕ) (w : W)
      → Ends E (λ bytes w'. (bytes ≡ block w lba) × Same w w') (read_sector drive lba w)
  read_sector-Ends lba w = moves (drive.read_block lba w) refl
    where
      moves :
          (r : BlockResult Text × W)
          → drive.read_block lba w ≡ r
          → Ends E (λ bytes w'. (bytes ≡ block w lba) × Same w w') (from_block r)
      moves (failed e, w') h = (bad.read_fails lba e w w' h).0
      moves (moved bytes, w') h = disk.reads lba bytes w w' h

  pub write_sector-Ends :
      (lba : ℕ) (bytes : Text) (w : W)
      → Ends E
          (λ u w'. (block w' lba ≡ bytes) × ((l : ℕ) → l ≢ lba → block w' l ≡ block w l))
          (write_sector drive lba bytes w)
  write_sector-Ends lba bytes w = moves (drive.write_block lba bytes w) refl
    where
      moves :
          (r : BlockResult (Unit {0}) × W)
          → drive.write_block lba bytes w ≡ r
          → Ends E
              (λ u w'. (block w' lba ≡ bytes) × ((l : ℕ) → l ≢ lba → block w' l ≡ block w l))
              (from_block r)
      moves (failed e, w') h = (bad.write_fails lba bytes e w w' h).0
      moves (moved u, w') h = disk.writes lba bytes w w' h

  pub read_sectors-Ends :
      (count lba : ℕ) (w : W)
      → Ends E
          (λ bytes w'. (bytes ≡ gather w count lba) × Same w w')
          (read_sectors drive count lba w)
  unfolding read_sectors
  read_sectors-Ends zero lba w = (refl, λ l. refl)
  read_sectors-Ends (suc count) lba w =
      Ends-continue E _ _ (read_sector drive lba w) _ (read_sector-Ends lba w) (λ first w1 one.
        Ends-continue E _ _ (read_sectors drive count (lba + 1) w1) _
          (read_sectors-Ends count (lba + 1) w1)
          (λ rest w2 more. (
            rw (one.0, more.0, gather-kept w w1 count (lba + 1) (λ l a b. one.1 l)) refl,
            λ l. more.1 l ∙ one.1 l,
          )))

  -- A run holds the bytes, and the sectors outside of it are as before.
  abbrev pub IsWritten : ℕ → ℕ → Text → W → W → Type 0
  IsWritten count lba bytes w w' =
      (gather w' count lba ≡ bytes) × ((l : ℕ) → IsOutside l lba count → block w' l ≡ block w l)

  IsWritten-more :
      (count lba : ℕ) (bytes : Text) (w w1 w2 : W)
      → (block w1 lba ≡ take block_size bytes) × ((l : ℕ) → l ≢ lba → block w1 l ≡ block w l)
      → IsWritten count (lba + 1) (drop block_size bytes) w1 w2
      → IsWritten (suc count) lba bytes w w2
  IsWritten-more count lba bytes w w1 w2 one more = (
    rw (more.0, more.1 lba (inl (omega arith)), one.0) (take-append-drop block_size bytes),
    λ l o. let (past, other) = IsOutside-rest l lba count o in more.1 l past ∙ one.1 l other,
  )

  pub write_sectors-Ends :
      (count lba : ℕ) (bytes : Text) (w : W)
      → length bytes ≡ count * block_size
      → Ends E (λ u w'. IsWritten count lba bytes w w') (write_sectors drive count lba bytes w)
  unfolding write_sectors
  write_sectors-Ends zero lba [] w h = (refl, λ l o. refl)
  write_sectors-Ends zero lba (b ∷ bytes) w h = absurd (omega (arith, h))
  write_sectors-Ends (suc count) lba bytes w h =
      let size : length (drop block_size bytes) ≡ count * block_size =
        omega (arith, h, length-drop block_size bytes) in
      Ends-continue E _ _ (write_sector drive lba (take block_size bytes) w) _
        (write_sector-Ends lba _ w)
        (λ u w1 one.
          Ends-weaken E (write_sectors drive count (lba + 1) (drop block_size bytes) w1)
            (write_sectors-Ends count (lba + 1) (drop block_size bytes) w1 size)
            (λ u w2 more. IsWritten-more count lba bytes w w1 w2 one more))
