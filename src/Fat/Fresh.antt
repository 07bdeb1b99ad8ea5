-- ===== src/Fat/Fresh.antt =====
-- The clusters of a new chain (kernel/src/fs/fat.rs, in `write_file`): where they lie, how many they
-- are, and that the blocks keep their size.
use willo_main.Prelude.{
  ℕ, zero, suc, ◌+◌, ◌-◌, ◌*◌, ◌/◌, ◌%◌, ◌^◌, ◌≤◌, ◌<◌, ◌≡◌, ◌≢◌, inl, inr, sym, ap, ◌∙◌, false,
  Text, List, [], ◌∷◌, length, drop, All, not, ◌&&◌, Bool-cases, arith, mul_mono,
}
use native.Mathlib.Nat.{div-add-mod', mod-lt}
use willo_main.Path.{is_empty}
use willo_main.Block.{BlockDevice, IsDisk, FailsOnlyIf}
use willo_main.Fat.{FatFs}
use willo_main.Fat.Io.{Io, Outcome, fail, done, unended, continue}
use willo_main.Fat.Chain.{next_cluster, in_chain, cluster_to_lba, cluster_bytes, fat_sector}
use willo_main.Fat.Table.{write_chain, write_cluster, cluster_of}
use willo_main.Fat.Files.{clusters_for}
use willo_main.Fat.Sectors.{Ends}
use willo_main.Fat.Contents.{length-cluster_of}
use willo_main.Fat.Linked.{IsLinked, next_cluster-Ends}
use willo_main.Fat.Written.{AreApart, IsLaid, room}
use willo_main.Fat.Volume.{
  IsVolume, fat_sector_lem, cluster_to_lba_lem, in_chain_lem, copy_end, AreApart_distinct,
}
use willo_main.Fat.Slots.{IsSized}
use willo_main.Fat.Summed.{write_cluster-Ends}
use willo_main.Fat.Grown.{AreDistinct, IsChain, IsFree}

-- A call that succeeds leaves the drive so; nothing is said of one that does not.
abbrev Yields : {A W : Type 0} → (W → Type 0) → Outcome A × W → Type 0
Yields P (fail e, w) = Unit
Yields P (done a, w) = P w
Yields P (unended, w) = Unit

Yields-continue :
    {A B W : Type 0} (P : W → Type 0) (r : Outcome A × W) (rest : A → Io W B)
    → Yields P r
    → ((a : A) (w : W) → P w → Yields P (rest a w))
    → Yields P (continue r rest)
Yields-continue P (fail e, w) rest h k = tt
Yields-continue P (done a, w) rest h k = k a w h
Yields-continue P (unended, w) rest h k = tt

pub Ends-Yields :
    {A W : Type 0} (E : Type 0) (P : A → W → Type 0) (Q : W → Type 0) (r : Outcome A × W)
    → Ends E P r
    → Yields Q r
    → Ends E (λ a w. P a w × Q w) r
Ends-Yields E P Q (fail e, w) h k = h
Ends-Yields E P Q (done a, w) h k = (h, k)
Ends-Yields E P Q (unended, w) h k = h

Yields-Ends :
    {A W : Type 0} (E : Type 0) (P : A → W → Type 0) (Q : W → Type 0) (r : Outcome A × W)
    → Ends E P r
    → ((a : A) (w : W) → P a w → Q w)
    → Yields Q r
Yields-Ends E P Q (fail e, w) h k = tt
Yields-Ends E P Q (done a, w) h k = k a w h
Yields-Ends E P Q (unended, w) h k = tt

-- A division that is rounded up.
ceil :
    (len b q r : ℕ)
    → q * b + r ≡ len + b - 1
    → r < b
    → 0 < len
    → len < 2 ^ 32
    → (n : ℕ) × (q % 2 ^ 32 ≡ suc n) × (len ≤ suc n * b) × (n < len)
ceil len b zero r e less some_len h = absurd (omega (arith, e, less, some_len))
ceil len b (suc n) r e less some_len h =
    let few = mul_mono n 1 b (omega (arith, less)) in
    (n, omega (arith, e, less, h, few), omega (arith, e, less), omega (arith, e, less, few))

module _ {W E : Type 0} (drive : BlockDevice W) (block : W → ℕ → Text) (disk : IsDisk drive block)
    (bad : FailsOnlyIf E drive block) (v : FatFs) (vol : IsVolume v) where
  abbrev Sized : W → Type 0
  Sized w = IsSized drive block disk bad v vol w

  pub write_chain-Yields :
      (fuel c : ℕ) (bytes : Text) (w : W)
      → Sized w
      → Yields Sized (write_chain drive v fuel c bytes w)
  unfolding write_chain
  write_chain-Yields zero c bytes w s = tt
  write_chain-Yields (suc fuel) c bytes w s =
      elim (Bool-cases (not (is_empty bytes) && in_chain c)) [
        | inr e ↦ rw e s
        | inl e ↦ rw e (
            Yields-continue Sized (write_cluster drive v c (cluster_of drive v bytes) w) _
              (Yields-Ends E _ Sized _
                (write_cluster-Ends drive block disk bad v vol c (cluster_of drive v bytes) w
                  (length-cluster_of drive v bytes) s)
                (λ u w1 one. one.1))
              (λ u w1 s1. elim (Bool-cases (is_empty (drop (cluster_bytes v) bytes))) [
                | inl g ↦ rw g s1
                | inr g ↦ rw g (
                    Yields-continue Sized (next_cluster drive v c w1) _
                      (Yields-Ends E _ Sized _ (next_cluster-Ends drive block disk bad v c w1)
                        (λ n w2 two l. ap length (two.1 l) ∙ s1 l))
                      (λ n w2 s2. write_chain-Yields fuel n (drop (cluster_bytes v) bytes) w2 s2))
              ]))
      ]

  in_fat :
      (w : W) (c : ℕ) → IsFree drive block disk bad v vol w c → fat_sector v c < v.data_start_lba
  in_fat w c (a, b, e) = omega (arith, fat_sector_lem v vol c b, b, copy_end v vol 0 vol.some_fats)

  in_data :
      (w : W) (c : ℕ)
      → IsFree drive block disk bad v vol w c
      → v.data_start_lba ≤ cluster_to_lba v c
  in_data w c (a, b, e) = omega (arith, cluster_to_lba_lem v vol c a b)

  pub apart_all :
      (w : W) (c : ℕ) (cs : List ℕ)
      → IsFree drive block disk bad v vol w c
      → All (IsFree drive block disk bad v vol w) cs
      → All (λ d. d ≢ c) cs
      → All (AreApart v c) cs
  apart_all w c [] f fs ds = tt
  apart_all w c (d ∷ cs) f (g, gs) (n, ns) =
      (AreApart_distinct v vol c d f.0 f.1 g.0 g.1 (λ e. n (sym e)), apart_all w c cs f gs ns)

  -- The clusters of a new chain lie behind the FAT and apart, and are linked.
  pub IsLaid-new :
      (w : W) (cs : List ℕ)
      → All (IsFree drive block disk bad v vol w) cs
      → AreDistinct cs
      → IsLaid v cs
  IsLaid-new w [] f d = tt
  IsLaid-new w (c ∷ cs) (f, fs) (d, ds) =
      (in_fat w c f, in_data w c f, apart_all w c cs f fs d, IsLaid-new w cs fs ds)

  pub IsLinked-new :
      (w w' : W) (c : ℕ) (cs : List ℕ)
      → All (IsFree drive block disk bad v vol w) (c ∷ cs)
      → IsChain drive block disk bad v vol w' c cs
      → IsLinked drive block disk bad v w' (c ∷ cs)
  IsLinked-new w w' c [] ((a, b, e), fs) h = (in_chain_lem v vol c a b, tt, tt)
  IsLinked-new w w' c (d ∷ cs) ((a, b, e), fs) (h, hs) =
      (in_chain_lem v vol c a b, h, IsLinked-new w w' d cs fs hs)

  pub room-length : (cs : List ℕ) → room v cs ≡ length cs * cluster_bytes v
  room-length [] = omega arith
  room-length (c ∷ cs) = omega (arith, room-length cs)

  pub clusters_for_lem :
      (bytes : Text)
      → is_empty bytes ≡ false
      → length bytes < 2 ^ 32
      → (n : ℕ) × (clusters_for v bytes ≡ suc n)
        × (length bytes ≤ suc n * cluster_bytes v)
        × (n < length bytes)
  clusters_for_lem bytes e h =
      let some_bytes : 0 < cluster_bytes v =
        omega (arith, ap (λ k. v.sectors_per_cluster * k) vol.sector_size, vol.some_sectors) in
      ceil (length bytes) (cluster_bytes v) ((length bytes + cluster_bytes v - 1) / cluster_bytes v)
        ((length bytes + cluster_bytes v - 1) % cluster_bytes v)
        (div-add-mod' (length bytes + cluster_bytes v - 1) (cluster_bytes v))
        (mod-lt (length bytes + cluster_bytes v - 1) some_bytes) (some_left bytes e) h
    where
      some_left : (bytes : Text) → is_empty bytes ≡ false → 0 < length bytes
      some_left [] e = cc
      some_left (b ∷ bytes) e = omega arith
