-- ===== src/Fat/Linked.antt =====
-- Chains of clusters (kernel/src/fs/fat.rs) that are written and read, on a drive that keeps what is
-- written and a volume whose FAT lies before its data.
use willo_main.Prelude.{
  ℕ, zero, suc, ◌+◌, ◌%◌, ◌≤◌, ◌<◌, ◌≡◌, ◌⊎◌, inl, inr, sym, ap, ◌∙◌, subst, true, false, Text,
  List, [], ◌∷◌, ◌++◌, length, take, drop, leb, leb→le, take-append-drop, length-drop, length-take,
  length-append, append_assoc, Bool-cases, if◌then◌else◌, arith,
}
use willo_main.Block.{BlockDevice, IsDisk, FailsOnlyIf}
use willo_main.Fat.{FatFs, word32, cluster_mod}
use willo_main.Fat.Io.{Io, ret, ◌>>=◌}
use willo_main.Fat.Chain.{
  read_sector, read_sectors, read_chain, next_cluster, in_chain, cluster_to_lba, cluster_bytes,
  fat_sector, in_sector,
}
use willo_main.Fat.Table.{cluster_of}
use willo_main.Fat.Sectors.{
  Ends, Ends-continue, Same, gather, gather-kept, read_sector-Ends, read_sectors-Ends,
}
use willo_main.Fat.Contents.{
  take_behind, take_front, leb-false, cluster_of-short, cluster_of-full, length-cluster_of,
}

module _ {W E : Type 0} (drive : BlockDevice W) (block : W → ℕ → Text) (disk : IsDisk drive block)
    (bad : FailsOnlyIf E drive block) (v : FatFs) where
  -- A link of a chain: the entry of a cluster names the next one, if there is one in the list.
  abbrev pub LinksTo : W → ℕ → List ℕ → Type 0
  LinksTo w c [] = Unit
  LinksTo w c (d ∷ rest) = word32 (block w (fat_sector v c)) (in_sector v c) % cluster_mod ≡ d

  abbrev pub IsLinked : W → List ℕ → Type 0
  IsLinked w [] = Unit
  IsLinked w (c ∷ rest) = (in_chain c ≡ true) × LinksTo w c rest × IsLinked w rest

  -- The clusters hold the bytes, as far as these go.
  abbrev pub Holds : W → List ℕ → Text → Type 0
  Holds w [] bytes = ⊥
  Holds w (c ∷ rest) bytes =
      (gather drive block disk bad w v.sectors_per_cluster (cluster_to_lba v c)
        ≡ cluster_of drive v bytes)
      × (cluster_bytes v < length bytes → Holds w rest (drop (cluster_bytes v) bytes))

  pub next_cluster-Ends :
      (c : ℕ) (w : W)
      → Ends E
          (λ next w'.
            (next ≡ word32 (block w (fat_sector v c)) (in_sector v c) % cluster_mod)
            × Same drive block disk bad w w')
          (next_cluster drive v c w)
  unfolding next_cluster
  next_cluster-Ends c w =
      Ends-continue E _ _ (read_sector drive (fat_sector v c) w) _
        (read_sector-Ends drive block disk bad (fat_sector v c) w)
        (λ buf w1 one. (ap (λ b. word32 b (in_sector v c) % cluster_mod) one.0, one.1))

  pub IsLinked-Same :
      (w w' : W) (cs : List ℕ) → Same drive block disk bad w w' → IsLinked w cs → IsLinked w' cs
  IsLinked-Same w w' [] s h = tt
  IsLinked-Same w w' (c ∷ []) s h = h
  IsLinked-Same w w' (c ∷ d ∷ rest) s (a, b, h) = (
    a,
    ap (λ t. word32 t (in_sector v c) % cluster_mod) (s (fat_sector v c)) ∙ b,
    IsLinked-Same w w' (d ∷ rest) s h,
  )

  pub Holds-Same :
      (w w' : W) (cs : List ℕ) (bytes : Text)
      → Same drive block disk bad w w'
      → Holds w cs bytes
      → Holds w' cs bytes
  Holds-Same w w' [] bytes s h = h
  Holds-Same w w' (c ∷ rest) bytes s (a, h) = (
    gather-kept drive block disk bad w w' _ _ (λ l x y. s l) ∙ a,
    λ k. Holds-Same w w' rest (drop (cluster_bytes v) bytes) s (h k),
  )

  abbrev goes_on : ℕ → ℕ → ℕ → Text → Io W Text
  goes_on fuel c max sofar =
      if leb max (length sofar)
      then ret sofar
      else (next_cluster drive v c >>= λ next. read_chain drive v fuel next max sofar)

  -- One round of `read_chain`: it stops in this cluster, or goes on behind it.
  read_cluster :
      (P : Text → W → Type 0) (fuel c max : ℕ) (out bytes : Text) (w : W)
      → in_chain c ≡ true
      → gather drive block disk bad w v.sectors_per_cluster (cluster_to_lba v c)
        ≡ cluster_of drive v bytes
      → max ≡ length out + length bytes
      → ((w1 : W)
          → length bytes ≤ cluster_bytes v
          → Same drive block disk bad w w1
          → P (out ++ cluster_of drive v bytes) w1)
      → ((w1 : W)
          → cluster_bytes v < length bytes
          → Same drive block disk bad w w1
          → Ends E P (
              (next_cluster drive v c >>= λ next.
              read_chain drive v fuel next max (out ++ take (cluster_bytes v) bytes))
                w1))
      → Ends E P (read_chain drive v (suc fuel) c max out w)
  unfolding read_chain
  read_cluster P fuel c max out bytes w chain got whole last more = rw chain (
      Ends-continue E _ P (read_sectors drive v.sectors_per_cluster (cluster_to_lba v c) w) _
        (read_sectors-Ends drive block disk bad v.sectors_per_cluster (cluster_to_lba v c) w)
        (λ buf w1 one.
          subst (λ b. Ends E P (goes_on fuel c max (out ++ b) w1)) (sym (one.0 ∙ got))
            (decides w1 one.1 (Bool-cases (leb max (length (out ++ cluster_of drive v bytes)))))))
    where
      size : length (out ++ cluster_of drive v bytes) ≡ length out + cluster_bytes v
      size =
          length-append out (cluster_of drive v bytes)
          ∙ ap (λ k. length out + k) (length-cluster_of drive v bytes)

      decides :
          (w1 : W)
          → Same drive block disk bad w w1
          → (leb max (length (out ++ cluster_of drive v bytes)) ≡ true)
            ⊎ (leb max (length (out ++ cluster_of drive v bytes)) ≡ false)
          → Ends E P (goes_on fuel c max (out ++ cluster_of drive v bytes) w1)
      decides w1 s (inl e) = rw e (last w1 (omega (arith, whole, size, leb→le _ _ e)) s)
      decides w1 s (inr e) =
          let long : cluster_bytes v < length bytes = omega (arith, whole, size, leb-false _ _ e) in
          let full = cluster_of-full drive v bytes (omega (arith, long)) in
          rw e (
            subst
              (λ t. Ends E P (
                (next_cluster drive v c >>= λ next. read_chain drive v fuel next max (out ++ t))
                  w1))
              (sym full) (more w1 long s))

  cut :
      (max : ℕ) (out bytes : Text)
      → max ≡ length out + length bytes
      → length bytes ≤ cluster_bytes v
      → take max (out ++ cluster_of drive v bytes) ≡ out ++ bytes
  cut max out bytes m short =
      ap (λ k. take k (out ++ cluster_of drive v bytes)) m
      ∙ take_behind out (cluster_of drive v bytes) (length bytes)
      ∙ ap (λ t. out ++ take (length bytes) t) (cluster_of-short drive v bytes short)
      ∙ ap (λ t. out ++ t) (take_front bytes _)

  -- Reading along a linked chain that holds the bytes.
  pub read_chain-Ends :
      (rest : List ℕ) (fuel c max : ℕ) (out bytes : Text) (w : W)
      → IsLinked w (c ∷ rest)
      → Holds w (c ∷ rest) bytes
      → length rest < fuel
      → max ≡ length out + length bytes
      → Ends E (λ all w'. take max all ≡ out ++ bytes) (read_chain drive v fuel c max out w)
  read_chain-Ends rest zero c max out bytes w l h k m = absurd (omega (arith, k))
  read_chain-Ends [] (suc fuel) c max out bytes w l h k m =
      read_cluster _ fuel c max out bytes w l.0 h.0 m (λ w1 short s. cut max out bytes m short)
        (λ w1 long s. absurd (h.1 long))
  read_chain-Ends (d ∷ rest) (suc fuel) c max out bytes w (a, b, l) h k m =
      read_cluster _ fuel c max out bytes w a h.0 m (λ w1 short s. cut max out bytes m short)
        (λ w1 long s.
          Ends-continue E _ _ (next_cluster drive v c w1) _ (next_cluster-Ends c w1) (λ next w2 one.
            let to_next : d ≡ next =
              sym (
                one.0
                ∙ ap (λ t. word32 t (in_sector v c) % cluster_mod) (s (fat_sector v c))
                ∙ b) in
            let same : Same drive block disk bad w w2 = λ l. one.1 l ∙ s l in
            let left = length-drop (cluster_bytes v) bytes in
            let taken = length-take (cluster_bytes v) bytes in
            let sum = length-append out (take (cluster_bytes v) bytes) in
            let rest_done =
              read_chain-Ends rest fuel d max (out ++ take (cluster_bytes v) bytes)
                (drop (cluster_bytes v) bytes) w2 (IsLinked-Same w w2 (d ∷ rest) same l)
                (Holds-Same w w2 (d ∷ rest) _ same (h.1 long)) (omega (arith, k))
                (omega (arith, m, long, left, taken, sum)) in
            let whole : (out ++ take (cluster_bytes v) bytes) ++ drop (cluster_bytes v) bytes
                ≡ out ++ bytes =
              append_assoc out (take (cluster_bytes v) bytes) (drop (cluster_bytes v) bytes)
              ∙ ap (λ t. out ++ t) (take-append-drop (cluster_bytes v) bytes) in
            let run =
              λ (n : ℕ). read_chain drive v fuel n max (out ++ take (cluster_bytes v) bytes) w2 in
            subst (λ t. Ends E (λ all w3. take max all ≡ t) (run next)) whole
              (subst
                (λ n.
                  Ends E
                    (λ all w3.
                      take max all
                      ≡ (out ++ take (cluster_bytes v) bytes) ++ drop (cluster_bytes v) bytes)
                    (run n))
                to_next rest_done)))
