-- ===== src/Fat/Slots.antt =====
-- The entries of the FAT as numbers (kernel/src/fs/fat.rs, `write_fat_entry` and `next_cluster`), on a
-- drive that keeps what is written.
use willo_main.Prelude.{
  ℕ, zero, suc, ◌+◌, ◌*◌, ◌/◌, ◌%◌, ◌≤◌, ◌<◌, ◌≡◌, ◌≢◌, ◌⊎◌, inl, inr, refl, sym, ap, ◌∙◌, Text,
  length, ◌==◌, ==_iff, Bool-cases, ltb, ltb→lt, arith,
}
use willo_main.Block.{BlockDevice, IsDisk, FailsOnlyIf}
use willo_main.Fat.{FatFs, word32, cluster_mod}
use willo_main.Fat.Io.{Outcome, fail, done, unended}
use willo_main.Fat.Chain.{fat_sector, in_sector, read_sector, write_sector}
use willo_main.Fat.Table.{set_entry, write_copies, write_fat_entry}
use willo_main.Fat.Words.{word32-set_entry_low, word32-set_entry_other, length-set_entry}
use willo_main.Fat.Mirror.{copy_sector, write_copies_lem}
use willo_main.Fat.Sectors.{Ends, Ends-continue, IsOutside, read_sector-Ends, write_sector-Ends}
use willo_main.Fat.Volume.{
  IsVolume, entries, copy_end, fat_sector_lem, in_sector_lem, copy_sector_lem, copy_sector-apart,
  fat_sector-copy_sector,
}

-- What a success tells besides.
pub Ends-done :
    {A W : Type 0} (E : Type 0) {P Q : A → W → Type 0} (r : Outcome A × W)
    → Ends E P r
    → ((a : A) (w : W) → r ≡ (done a, w) → P a w → Q a w)
    → Ends E Q r
Ends-done E (fail e, w) h k = h
Ends-done E (done a, w) h k = k a w refl h
Ends-done E (unended, w) h k = h

module _ {W E : Type 0} (drive : BlockDevice W) (block : W → ℕ → Text) (disk : IsDisk drive block)
    (bad : FailsOnlyIf E drive block) (v : FatFs) (vol : IsVolume v) where
  -- Every block has 512 bytes.
  abbrev pub IsSized : W → Type 0
  IsSized w = (l : ℕ) → length (block w l) ≡ 512

  -- The entry of a cluster, in the first copy of the FAT.
  abbrev pub entry : W → ℕ → ℕ
  entry w c = word32 (block w (fat_sector v c)) (in_sector v c) % cluster_mod

  -- The entry of a cluster is the value, no other entry has changed, and no block outside of the FAT.
  pub record IsEntrySet (c value : ℕ) (w w' : W) : Type 0 where
    pub here : entry w' c ≡ value % cluster_mod
    pub others : (d : ℕ) → d < entries v vol → d ≢ c → entry w' d ≡ entry w d
    pub outside :
        (l : ℕ)
        → IsOutside l v.fat_start_lba (v.num_fats * v.sectors_per_fat)
        → block w' l ≡ block w l
    pub sized : IsSized w'

  pub write_one :
      (l : ℕ) (bytes : Text) (w w' : W)
      → IsSized w
      → length bytes ≡ 512
      → (block w' l ≡ bytes) × ((k : ℕ) → k ≢ l → block w' k ≡ block w k)
      → IsSized w'
  write_one l bytes w w' s h (same, others) k = elim (Bool-cases (k == l)) [
    | inl e ↦ ap (λ n. length (block w' n)) ((==_iff k l).0 e) ∙ ap length same ∙ h
    | inr e ↦ ap length (others k (λ q. ground (arith, e, q))) ∙ s k
  ]

  write_copies-Ends :
      (count i c value : ℕ) (w : W)
      → c < entries v vol
      → IsSized w
      → Ends E (λ u w'. IsSized w') (write_copies drive v count i c value w)
  unfolding write_copies
  write_copies-Ends zero i c value w h s = s
  write_copies-Ends (suc count) i c value w h s =
      Ends-continue E _ _ (read_sector drive (copy_sector v c i) w) _
        (read_sector-Ends drive block disk bad (copy_sector v c i) w)
        (λ buf w1 one.
          let size : length buf ≡ 512 = ap length one.0 ∙ s (copy_sector v c i) in
          Ends-continue E _ _
            (write_sector drive (copy_sector v c i) (set_entry buf (in_sector v c) value) w1) _
            (write_sector-Ends drive block disk bad (copy_sector v c i) _ w1)
            (λ u w2 two. write_copies-Ends count (i + 1) c value w2 h (
              write_one (copy_sector v c i) _ w1 w2 (λ l. ap length (one.1 l) ∙ s l)
                (length-set_entry buf (in_sector v c) value
                    (omega (arith, size, in_sector_lem v vol c h))
                  ∙ size)
                two)))

  -- Another cluster's entry stands in a block that no copy of this one's takes, or beside it.
  other_entry :
      (c d value : ℕ) (w w' : W)
      → c < entries v vol
      → d < entries v vol
      → d ≢ c
      → IsSized w
      → ((k : ℕ)
          → 0 ≤ k
          → k < 0 + v.num_fats
          → block w' (copy_sector v c k)
            ≡ set_entry (block w (copy_sector v c k)) (in_sector v c) value)
      → ((l : ℕ)
          → ((k : ℕ) → 0 ≤ k → k < 0 + v.num_fats → l ≢ copy_sector v c k)
          → block w' l ≡ block w l)
      → entry w' d ≡ entry w d
  other_entry c d value w w' h k ne s copies rest = elim (Bool-cases (d / 128 == c / 128)) [
    | inl e ↦ beside ((==_iff _ _).0 e)
    | inr e ↦ ap (word_at (in_sector v d)) (
        rest (fat_sector v d) (λ n a small.
          fat_sector-copy_sector v vol c d n h k (omega (arith, small))
            (λ q. ground (arith, e, q))))
  ]
    where
      word_at : ℕ → Text → ℕ
      word_at i b = word32 b i % cluster_mod

      apart :
          d / 128 ≡ c / 128
          → (in_sector v d + 4 ≤ in_sector v c) ⊎ (in_sector v c + 4 ≤ in_sector v d)
      apart e = elim (Bool-cases (ltb d c)) [
        | inl g ↦
            inl (omega (arith, e, ltb→lt d c g, in_sector_lem v vol c h, in_sector_lem v vol d k))
        | inr g ↦
            let more : c < d = ground (arith, g, ne) in
            inr (omega (arith, e, more, in_sector_lem v vol c h, in_sector_lem v vol d k))
      ]

      beside : d / 128 ≡ c / 128 → entry w' d ≡ entry w d
      beside e =
          let shared : fat_sector v d ≡ copy_sector v c 0 =
            omega (arith, e, fat_sector_lem v vol d k, copy_sector_lem v vol c 0 h vol.some_fats) in
          ap (λ l. word32 (block w' l) (in_sector v d) % cluster_mod) shared
          ∙ (ap (λ b. word32 b (in_sector v d) % cluster_mod)
                (copies 0 (omega arith) (omega (arith, vol.some_fats)))
              ∙ (ap (λ x. x % cluster_mod)
                    (word32-set_entry_other (block w (copy_sector v c 0)) (in_sector v c) value
                      (in_sector v d)
                      (omega (arith, s (copy_sector v c 0), in_sector_lem v vol c h)) (apart e))
                  ∙ ap (λ l. word32 (block w l) (in_sector v d) % cluster_mod) (sym shared)))

  outside_copies :
      (c k l : ℕ)
      → c < entries v vol
      → k < v.num_fats
      → IsOutside l v.fat_start_lba (v.num_fats * v.sectors_per_fat)
      → l ≢ copy_sector v c k
  outside_copies c k l h less (inl o) e = omega (arith, o, e, copy_sector_lem v vol c k h less)
  outside_copies c k l h less (inr o) e =
      omega
        (arith, o, e, copy_sector_lem v vol c k h less, copy_end v vol k less, vol.data_behind, h)

  first_copy : (c : ℕ) → copy_sector v c 0 ≡ fat_sector v c
  first_copy c = omega arith

  pub write_fat_entry-Ends :
      (c value : ℕ) (w : W)
      → c < entries v vol
      → IsSized w
      → Ends E (λ u w'. IsEntrySet c value w w') (write_fat_entry drive v c value w)
  unfolding write_fat_entry
  write_fat_entry-Ends c value w h s =
      Ends-done E (write_copies drive v v.num_fats 0 c value w)
        (write_copies-Ends v.num_fats 0 c value w h s)
        (λ u w' run sized.
          let (copies, rest) =
            write_copies_lem drive block disk v c value v.num_fats 0 w w'
              (λ i k a less small. copy_sector-apart v vol c i k h less (omega (arith, small)))
              run in
          record {
            here =
                ap (λ l. word32 (block w' l) (in_sector v c) % cluster_mod) (sym (first_copy c))
                ∙ (ap (λ b. word32 b (in_sector v c) % cluster_mod)
                      (copies 0 (omega arith) (omega (arith, vol.some_fats)))
                    ∙ word32-set_entry_low (block w (copy_sector v c 0)) (in_sector v c) value
                        (omega (arith, s (copy_sector v c 0), in_sector_lem v vol c h)));
            others = λ d k ne. other_entry c d value w w' h k ne s copies rest;
            outside = λ l o. rest l (λ k a b. outside_copies c k l h (omega (arith, b)) o);
            sized = sized;
          })
