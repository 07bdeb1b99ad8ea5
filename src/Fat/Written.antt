-- ===== src/Fat/Written.antt =====
-- Writing along a chain of clusters (kernel/src/fs/fat.rs, `write_chain`).
use willo_main.Prelude.{
  ℕ, zero, suc, ◌+◌, ◌*◌, ◌%◌, ◌≤◌, ◌<◌, ◌≡◌, ◌⊎◌, inl, inr, sym, ap, ◌∙◌, subst, true, false, Text,
  List, [], ◌∷◌, length, drop, leb, leb→le, length-drop, All, Bool-cases, arith,
}
use willo_main.Path.{is_empty}
use willo_main.Block.{BlockDevice, IsDisk, FailsOnlyIf, block_size}
use willo_main.Fat.{FatFs, word32, cluster_mod}
use willo_main.Fat.Io.{◌>>=◌}
use willo_main.Fat.Chain.{
  next_cluster, in_chain, cluster_to_lba, cluster_bytes, fat_sector, in_sector,
}
use willo_main.Fat.Table.{write_sectors, write_cluster, write_chain, cluster_of}
use willo_main.Fat.Sectors.{
  Ends, Ends-continue, Ends-weaken, Same, gather-kept, IsOutside, IsWritten, write_sectors-Ends,
}
use willo_main.Fat.Contents.{is_empty-drop, leb-false, length-cluster_of}
use willo_main.Fat.Linked.{IsLinked, Holds, next_cluster-Ends}

leb_above : (a b : ℕ) → b < a → leb a b ≡ false
leb_above a b h = ground (arith, h)

module _ (v : FatFs) where
  -- The sectors of two clusters are apart.
  abbrev pub AreApart : ℕ → ℕ → Type 0
  AreApart c d =
      (cluster_to_lba v c + v.sectors_per_cluster ≤ cluster_to_lba v d)
      ⊎ (cluster_to_lba v d + v.sectors_per_cluster ≤ cluster_to_lba v c)

  -- The clusters lie behind the FAT and apart from each other.
  abbrev pub IsLaid : List ℕ → Type 0
  IsLaid [] = Unit
  IsLaid (c ∷ rest) =
      (fat_sector v c < v.data_start_lba)
      × (v.data_start_lba ≤ cluster_to_lba v c)
      × All (AreApart c) rest
      × IsLaid rest

  abbrev pub room : List ℕ → ℕ
  room [] = 0
  room (c ∷ rest) = cluster_bytes v + room rest

  -- A sector of none of the clusters.
  abbrev pub Avoids : ℕ → List ℕ → Type 0
  Avoids l cs = All (λ c. IsOutside l (cluster_to_lba v c) v.sectors_per_cluster) cs

  pub Avoids-apart :
      (c l : ℕ) (rest : List ℕ)
      → All (AreApart c) rest
      → cluster_to_lba v c ≤ l
      → l < cluster_to_lba v c + v.sectors_per_cluster
      → Avoids l rest
  Avoids-apart c l [] h a b = tt
  Avoids-apart c l (d ∷ rest) (h, k) a b = (one h, Avoids-apart c l rest k a b)
    where
      one : AreApart c d → IsOutside l (cluster_to_lba v d) v.sectors_per_cluster
      one (inl x) = inl (omega (arith, x, b))
      one (inr x) = inr (omega (arith, x, a))

  pub Avoids-data : (l : ℕ) (cs : List ℕ) → IsLaid cs → l < v.data_start_lba → Avoids l cs
  Avoids-data l [] h k = tt
  Avoids-data l (c ∷ rest) (f, d, a, h) k = (inl (omega (arith, d, k)), Avoids-data l rest h k)

module _ {W E : Type 0} (drive : BlockDevice W) (block : W → ℕ → Text) (disk : IsDisk drive block)
    (bad : FailsOnlyIf E drive block) (v : FatFs)
    (sector_size : v.bytes_per_sector ≡ block_size) where
  -- The clusters hold the bytes, and no other sector has changed.
  abbrev pub IsStored : List ℕ → Text → W → W → Type 0
  IsStored cs bytes w w' =
      Holds drive block disk bad v w' cs bytes × ((l : ℕ) → Avoids v l cs → block w' l ≡ block w l)

  IsLinked-kept :
      (w w' : W) (cs : List ℕ)
      → IsLaid v cs
      → ((l : ℕ) → l < v.data_start_lba → block w' l ≡ block w l)
      → IsLinked drive block disk bad v w cs
      → IsLinked drive block disk bad v w' cs
  IsLinked-kept w w' [] laid s h = tt
  IsLinked-kept w w' (c ∷ []) laid s h = h
  IsLinked-kept w w' (c ∷ d ∷ rest) (f, x, y, laid) s (a, b, h) = (
    a,
    ap (λ t. word32 t (in_sector v c) % cluster_mod) (s (fat_sector v c) f) ∙ b,
    IsLinked-kept w w' (d ∷ rest) laid s h,
  )

  size_lem :
      (c : ℕ) (bytes : Text)
      → length (cluster_of drive v bytes) ≡ v.sectors_per_cluster * block_size
  size_lem c bytes =
      length-cluster_of drive v bytes ∙ ap (λ k. v.sectors_per_cluster * k) sector_size

  -- One round of `write_chain`: it stops in this cluster, or goes on behind it.
  write_cluster-then :
      (P : Unit {0} → W → Type 0) (fuel c : ℕ) (bytes : Text) (w : W)
      → in_chain c ≡ true
      → is_empty bytes ≡ false
      → ((w1 : W)
          → length bytes ≤ cluster_bytes v
          → IsWritten drive block disk bad v.sectors_per_cluster
              (cluster_to_lba v c)
              (cluster_of drive v bytes)
              w
              w1
          → P tt w1)
      → ((w1 : W)
          → cluster_bytes v < length bytes
          → IsWritten drive block disk bad v.sectors_per_cluster
              (cluster_to_lba v c)
              (cluster_of drive v bytes)
              w
              w1
          → Ends E P (
              (next_cluster drive v c >>= λ next.
              write_chain drive v fuel next (drop (cluster_bytes v) bytes))
                w1))
      → Ends E P (write_chain drive v (suc fuel) c bytes w)
  unfolding write_chain write_cluster
  write_cluster-then P fuel c bytes w chain some_bytes last more =
      rw (some_bytes, chain)
        (Ends-continue E _ P
          (write_sectors drive v.sectors_per_cluster (cluster_to_lba v c) (cluster_of drive v bytes)
            w)
          _
          (write_sectors-Ends drive block disk bad v.sectors_per_cluster (cluster_to_lba v c)
            (cluster_of drive v bytes) w (size_lem c bytes))
          (λ u w1 one. elim (Bool-cases (is_empty (drop (cluster_bytes v) bytes))) [
            | inl e ↦
                rw e (last w1 (leb→le _ _ (sym (is_empty-drop (cluster_bytes v) bytes) ∙ e)) one)
            | inr e ↦
                rw e (more w1 (leb-false _ _ (sym (is_empty-drop (cluster_bytes v) bytes) ∙ e)) one)
          ]))

  -- What a later write leaves of a cluster's sectors and of the FAT.
  stored_more :
      (c : ℕ) (rest : List ℕ) (bytes : Text) (w w1 w2 w3 : W)
      → IsLaid v (c ∷ rest)
      → IsWritten drive block disk bad v.sectors_per_cluster
          (cluster_to_lba v c)
          (cluster_of drive v bytes)
          w
          w1
      → Same drive block disk bad w1 w2
      → IsStored rest (drop (cluster_bytes v) bytes) w2 w3
      → IsStored (c ∷ rest) bytes w w3
  stored_more c rest bytes w w1 w2 w3 (f, d, apart, laid) (here, outside) same (holds, others) = (
    (
      gather-kept drive block disk bad w1 w3 v.sectors_per_cluster (cluster_to_lba v c)
            (λ l a b. others l (Avoids-apart v c l rest apart a b) ∙ same l)
          ∙ here,
      λ k. holds,
    ),
    λ l a. others l a.1 ∙ same l ∙ outside l a.0,
  )

  pub write_chain-Ends :
      (rest : List ℕ) (fuel c : ℕ) (bytes : Text) (w : W)
      → IsLaid v (c ∷ rest)
      → IsLinked drive block disk bad v w (c ∷ rest)
      → is_empty bytes ≡ false
      → length bytes ≤ room v (c ∷ rest)
      → length rest < fuel
      → Ends E (λ u w'. IsStored (c ∷ rest) bytes w w') (write_chain drive v fuel c bytes w)
  write_chain-Ends rest zero c bytes w laid l e r k = absurd (omega (arith, k))
  write_chain-Ends [] (suc fuel) c bytes w laid l e r k =
      write_cluster-then _ fuel c bytes w l.0 e
        (λ w1 short one. ((one.0, λ long. absurd (omega (arith, long, short))), λ l a. one.1 l a.0))
        (λ w1 long one. absurd (omega (arith, long, r)))
  write_chain-Ends (d ∷ rest) (suc fuel) c bytes w laid (a, b, l) e r k =
      write_cluster-then _ fuel c bytes w a e
        (λ w1 short one. ((one.0, λ long. absurd (omega (arith, long, short))), λ l a. one.1 l a.0))
        (λ w1 long one.
          let fat_kept : (l : ℕ) → l < v.data_start_lba → block w1 l ≡ block w l =
            λ l small. one.1 l (Avoids-data v l (c ∷ d ∷ rest) laid small).0 in
          Ends-continue E _ _ (next_cluster drive v c w1) _
            (next_cluster-Ends drive block disk bad v c w1)
            (λ next w2 two.
              let to_next : d ≡ next = sym (
                two.0
                ∙ ap (λ t. word32 t (in_sector v c) % cluster_mod)
                    (fat_kept (fat_sector v c) laid.0)
                ∙ b) in
              let left = length-drop (cluster_bytes v) bytes in
              let linked =
                IsLinked-kept w w2 (d ∷ rest) laid.3 (λ l small. two.1 l ∙ fat_kept l small) l in
              let some_left : is_empty (drop (cluster_bytes v) bytes) ≡ false =
                is_empty-drop (cluster_bytes v) bytes ∙ leb_above _ _ long in
              let stored =
                write_chain-Ends rest fuel d (drop (cluster_bytes v) bytes) w2 laid.3 linked
                  some_left (omega (arith, left, r, long)) (omega (arith, k)) in
              subst
                (λ n.
                  Ends E (λ u w'. IsStored (c ∷ d ∷ rest) bytes w w')
                    (write_chain drive v fuel n (drop (cluster_bytes v) bytes) w2))
                to_next
                (Ends-weaken E (write_chain drive v fuel d (drop (cluster_bytes v) bytes) w2) stored
                  (λ u w3 more. stored_more c (d ∷ rest) bytes w w1 w2 w3 laid one two.1 more))))
