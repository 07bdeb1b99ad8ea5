-- ===== src/Fat/Volume.antt =====
-- Where the entries and the clusters of a volume lie (kernel/src/fs/fat.rs), as numbers without the
-- wrap-around, on a volume that fits into 32 bits.
use willo_main.Prelude.{
  ℕ, zero, suc, ◌+◌, ◌-◌, ◌*◌, ◌/◌, ◌%◌, ◌^◌, ◌≤◌, ◌<◌, ◌≡◌, ◌≢◌, inl, inr, ap, ◌∙◌, true,
  Bool-cases, ltb, ltb→lt, arith, mul_mono,
}
use willo_main.Block.{BlockDevice, block_size}
use willo_main.Fat.{FatFs}
use willo_main.Fat.Chain.{in_chain, cluster_to_lba, fat_sector, in_sector}
use willo_main.Fat.Table.{total_clusters}
use willo_main.Fat.Mirror.{copy_sector}
use willo_main.Fat.Written.{AreApart}

-- A volume as parse_bpb reads it, with the summary sector before its FAT and the data behind it.
pub record IsVolume (v : FatFs) : Type 0 where
  pub sector_size : v.bytes_per_sector ≡ block_size
  pub some_sectors : 0 < v.sectors_per_cluster
  pub some_fats : 0 < v.num_fats
  pub fat_behind : 1 < v.fat_start_lba
  pub data_behind : v.data_start_lba ≡ v.fat_start_lba + v.num_fats * v.sectors_per_fat
  pub some_entries : 0 < v.sectors_per_fat
  pub few_entries : v.sectors_per_fat < 2 ^ 21
  pub in_range : v.data_start_lba + v.sectors_per_fat * 128 * v.sectors_per_cluster ≤ 2 ^ 32

module _ (v : FatFs) (vol : IsVolume v) where
  -- The number of entries of the FAT.
  abbrev pub entries : ℕ
  entries = v.sectors_per_fat * 128

  pub total_clusters_lem : {W : Type 0} (drive : BlockDevice W) → total_clusters drive v ≡ entries
  total_clusters_lem drive =
      ap (λ b. v.sectors_per_fat * b % 2 ^ 32 / 4) vol.sector_size ∙ omega (arith, vol.few_entries)

  -- A copy of the FAT lies before the data.
  pub copy_end :
      (k : ℕ)
      → k < v.num_fats
      → v.fat_start_lba + k * v.sectors_per_fat + v.sectors_per_fat ≤ v.data_start_lba
  copy_end k h = omega (arith, vol.data_behind, mul_mono v.sectors_per_fat (suc k) v.num_fats h)

  data_end : v.data_start_lba ≤ 2 ^ 32
  data_end = omega (arith, vol.in_range)

  pub fat_sector_lem : (c : ℕ) → c < entries → fat_sector v c ≡ v.fat_start_lba + c / 128
  fat_sector_lem c h =
      ap (λ b. (v.fat_start_lba + c * 4 % 2 ^ 32 / b) % 2 ^ 32) vol.sector_size
      ∙ omega (arith, h, vol.few_entries, data_end, copy_end 0 vol.some_fats)

  pub in_sector_lem : (c : ℕ) → c < entries → in_sector v c ≡ c % 128 * 4
  in_sector_lem c h =
      ap (λ b. c * 4 % 2 ^ 32 % b) vol.sector_size ∙ omega (arith, h, vol.few_entries)

  pub copy_sector_lem :
      (c k : ℕ)
      → c < entries
      → k < v.num_fats
      → copy_sector v c k ≡ v.fat_start_lba + k * v.sectors_per_fat + c / 128
  copy_sector_lem c k h less = omega (arith, fat_sector_lem c h, h, data_end, copy_end k less)

  pub cluster_to_lba_lem :
      (c : ℕ)
      → 2 ≤ c
      → c < entries
      → cluster_to_lba v c ≡ v.data_start_lba + (c - 2) * v.sectors_per_cluster
  unfolding cluster_to_lba
  cluster_to_lba_lem c low h =
      let e : (c + 2 ^ 32 - 2) % 2 ^ 32 ≡ c - 2 = omega (arith, low, h, vol.few_entries) in
      ap (λ n. (v.data_start_lba + n * v.sectors_per_cluster) % 2 ^ 32) e
      ∙ omega (
        arith,
        vol.in_range,
        vol.some_sectors,
        mul_mono v.sectors_per_cluster (suc (c - 2)) entries (omega (arith, h)),
      )

  pub in_chain_lem : (c : ℕ) → 2 ≤ c → c < entries → in_chain c ≡ true
  unfolding in_chain
  in_chain_lem c low h = ground (arith, low, h, vol.few_entries)

  -- The copies of an entry lie apart.
  pub copy_sector-apart :
      (c i k : ℕ) → c < entries → i < k → k < v.num_fats → copy_sector v c i ≢ copy_sector v c k
  copy_sector-apart c i k h less small e = omega (
    arith,
    e,
    h,
    copy_sector_lem c i h (omega (arith, less, small)),
    copy_sector_lem c k h small,
    mul_mono v.sectors_per_fat (suc i) k less,
  )

  -- Entries of other sectors of the FAT lie in none of the copies of this one's.
  pub fat_sector-copy_sector :
      (c d k : ℕ)
      → c < entries
      → d < entries
      → k < v.num_fats
      → d / 128 ≢ c / 128
      → fat_sector v d ≢ copy_sector v c k
  fat_sector-copy_sector c d zero h h' less ne e =
      ne (omega (arith, e, fat_sector_lem d h', copy_sector_lem c 0 h less))
  fat_sector-copy_sector c d (suc k) h h' less ne e = omega (
    arith,
    e,
    fat_sector_lem d h',
    copy_sector_lem c (suc k) h less,
    mul_mono v.sectors_per_fat 1 (suc k) (omega arith),
    h',
  )

  before : (c d : ℕ) → 2 ≤ c → c < d → d < entries → AreApart v c d
  before c d low less h = inl (
      omega (
        arith,
        less,
        cluster_to_lba_lem c low (omega (arith, less, h)),
        cluster_to_lba_lem d (omega (arith, low, less)) h,
        mul_mono v.sectors_per_cluster (suc (c - 2)) (d - 2) (omega (arith, low, less)),
      ))

  -- Two clusters lie apart.
  pub AreApart_distinct :
      (c d : ℕ) → 2 ≤ c → c < entries → 2 ≤ d → d < entries → c ≢ d → AreApart v c d
  AreApart_distinct c d low h low' h' ne = elim (Bool-cases (ltb c d)) [
    | inl e ↦ before c d low (ltb→lt c d e) h'
    | inr e ↦ flip (before d c low' (ground (arith, e, ne)) h)
  ]
    where
      flip : AreApart v d c → AreApart v c d
      flip (inl x) = inr x
      flip (inr x) = inl x
