-- ===== src/Fat/Summed.antt =====
-- The summary sector's update and the write of a cluster (kernel/src/fs/fat.rs): what they leave alone,
-- on a drive that keeps what is written.
use willo_main.Prelude.{
  ℕ, zero, suc, ◌+◌, ◌*◌, ◌≡◌, ◌≢◌, inl, inr, refl, ap, ◌∙◌, Text, length, take, drop, length-take,
  length-drop, if◌then◌else◌, ◌==◌, ==_iff, Bool-cases, arith,
}
use willo_main.Block.{BlockDevice, BlockResult, failed, moved, IsDisk, FailsOnlyIf, block_size}
use willo_main.Fat.{FatFs, word32, le32}
use willo_main.Fat.Io.{Io, Outcome, fail, done, unended, continue, dropped, from_block, ignore, ret}
use willo_main.Fat.Chain.{cluster_to_lba, cluster_bytes, write_sector}
use willo_main.Fat.Table.{
  Delta, set_count, set_hint, signed_fsinfo, update_fsinfo, write_sectors, write_cluster,
}
use willo_main.Fat.Words.{length-splice}
use willo_main.Fat.Sectors.{
  Ends, Ends-continue, Same, IsWritten, write_sectors-Ends, write_sector-Ends,
}
use willo_main.Fat.Volume.{IsVolume}
use willo_main.Fat.Slots.{IsSized, write_one}

Ends-both :
    {A W : Type 0} (E : Type 0) (P Q : A → W → Type 0) (r : Outcome A × W)
    → Ends E P r
    → Ends E Q r
    → Ends E (λ a w. P a w × Q a w) r
Ends-both E P Q (fail e, w) h k = h
Ends-both E P Q (done a, w) h k = (h, k)
Ends-both E P Q (unended, w) h k = h

length-set_count :
    (buf : Text) (delta : Delta) → length buf ≡ 512 → length (set_count buf delta) ≡ 512
unfolding set_count
length-set_count buf delta h = elim (Bool-cases (word32 buf 0x1E8 == 0xFFFFFFFF)) [
  | inl e ↦ rw e h
  | inr e ↦ rw e (length-splice buf (le32 _) 0x1E8 (omega (arith, h)) ∙ h)
]

length-set_hint : (buf : Text) (last : ℕ) → length buf ≡ 512 → length (set_hint buf last) ≡ 512
unfolding set_hint
length-set_hint buf last h = elim (Bool-cases (last == 0)) [
  | inl e ↦ rw e h
  | inr e ↦ rw e (length-splice buf (le32 last) 0x1EC (omega (arith, h)) ∙ h)
]

module _ {W E : Type 0} (drive : BlockDevice W) (block : W → ℕ → Text) (disk : IsDisk drive block)
    (bad : FailsOnlyIf E drive block) (v : FatFs) (vol : IsVolume v) where
  abbrev Sized : W → Type 0
  Sized w = IsSized drive block disk bad v vol w

  -- Nothing but the summary sector has changed.
  abbrev pub IsSummed : W → W → Type 0
  IsSummed w w' = ((l : ℕ) → l ≢ 1 → block w' l ≡ block w l) × Sized w'

  -- An update of the summary sector whose error is ignored never fails.
  pub update_fsinfo-Ends :
      (F : Type 0) (delta : Delta) (last : ℕ) (w : W)
      → Sized w
      → Ends F (λ u w'. IsSummed w w') (ignore (update_fsinfo drive v delta last) w)
  unfolding update_fsinfo
  update_fsinfo-Ends F delta last w s = reading (drive.read_block 1 w) refl
    where
      rest : Text → Io W (Unit {0})
      rest buf =
          if signed_fsinfo buf
          then write_sector drive 1 (set_hint (set_count buf delta) last)
          else ret tt

      writing :
          (bytes : Text) (w1 : W) (r : BlockResult (Unit {0}) × W)
          → Same drive block disk bad w w1
          → length bytes ≡ 512
          → drive.write_block 1 bytes w1 ≡ r
          → Ends F (λ u w'. IsSummed w w') (dropped (from_block r))
      writing bytes w1 (failed e, w2) same h q =
          let (x, size, others) = bad.write_fails 1 bytes e w1 w2 q in
          (
            λ l ne. others l ne ∙ same l,
            λ l. elim (Bool-cases (l == 1)) [
              | inl g ↦
                  ap (λ k. length (block w2 k)) ((==_iff l 1).0 g)
                  ∙ (size ∙ (ap length (same 1) ∙ s 1))
              | inr g ↦ ap length (others l (λ k. ground (arith, g, k)) ∙ same l) ∙ s l
            ],
          )
      writing bytes w1 (moved u, w2) same h q =
          let (here, others) = disk.writes 1 bytes w1 w2 q in
          (
            λ l ne. others l ne ∙ same l,
            write_one drive block disk bad v vol 1 bytes w1 w2 (λ l. ap length (same l) ∙ s l) h
                (here, others),
          )

      reading :
          (r : BlockResult Text × W)
          → drive.read_block 1 w ≡ r
          → Ends F (λ u w'. IsSummed w w') (dropped (continue (from_block r) rest))
      reading (failed e, w1) h =
          let same = (bad.read_fails 1 e w w1 h).1 in
          (λ l ne. same l, λ l. ap length (same l) ∙ s l)
      reading (moved buf, w1) h =
          let (here, same) = disk.reads 1 buf w w1 h in
          elim (Bool-cases (signed_fsinfo buf)) [
            | inr e ↦ rw e (λ l ne. same l, λ l. ap length (same l) ∙ s l)
            | inl e ↦ rw e (
                writing (set_hint (set_count buf delta) last) w1
                  (drive.write_block 1 (set_hint (set_count buf delta) last) w1) same
                  (length-set_hint (set_count buf delta) last
                    (length-set_count buf delta (ap length here ∙ s 1)))
                  refl)
          ]

  write_sectors-Sized :
      (count lba : ℕ) (bytes : Text) (w : W)
      → length bytes ≡ count * block_size
      → Sized w
      → Ends E (λ u w'. Sized w') (write_sectors drive count lba bytes w)
  unfolding write_sectors
  write_sectors-Sized zero lba bytes w h s = s
  write_sectors-Sized (suc count) lba bytes w h s =
      let here : length (take block_size bytes) ≡ 512 =
        omega (arith, h, length-take block_size bytes) in
      let left : length (drop block_size bytes) ≡ count * block_size =
        omega (arith, h, length-drop block_size bytes) in
      Ends-continue E _ _ (write_sector drive lba (take block_size bytes) w) _
        (write_sector-Ends drive block disk bad lba _ w)
        (λ u w1 one.
          write_sectors-Sized count (lba + 1) (drop block_size bytes) w1 left
            (write_one drive block disk bad v vol lba _ w w1 s here one))

  pub write_cluster-Ends :
      (c : ℕ) (bytes : Text) (w : W)
      → length bytes ≡ cluster_bytes v
      → Sized w
      → Ends E
          (λ u w'.
            IsWritten drive block disk bad v.sectors_per_cluster (cluster_to_lba v c) bytes w w'
            × Sized w')
          (write_cluster drive v c bytes w)
  unfolding write_cluster
  write_cluster-Ends c bytes w h s =
      let size : length bytes ≡ v.sectors_per_cluster * block_size =
        h ∙ ap (λ n. v.sectors_per_cluster * n) vol.sector_size in
      Ends-both E _ _ _
        (write_sectors-Ends drive block disk bad v.sectors_per_cluster (cluster_to_lba v c) bytes w
          size)
        (write_sectors-Sized v.sectors_per_cluster (cluster_to_lba v c) bytes w size s)
