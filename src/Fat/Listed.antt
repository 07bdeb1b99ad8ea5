-- ===== src/Fat/Listed.antt =====
-- `read_dir` (kernel/src/fs/fat.rs) along a chain that ends, on a drive that keeps what is written: the
-- entries of all slots of the chain's clusters.
use willo_main.Prelude.{
  ℕ, zero, suc, ◌+◌, ◌-◌, ◌*◌, ◌/◌, ◌^◌, ◌≤◌, ◌<◌, ◌≡◌, refl, sym, ap, ◌∙◌, subst, false, List, [],
  ◌∷◌, ◌++◌, Text, leb, length, take, drop, All, length-append, length-drop, append_assoc,
  append-nil, arith,
}
use willo_main.Block.{BlockDevice, IsDisk, FailsOnlyIf}
use willo_main.Fat.{FatFs}
use willo_main.Fat.Io.{done}
use willo_main.Fat.Chain.{
  chunks, entries_of, in_chain, read_sectors, next_cluster, read_chain, read_dir, cluster_to_lba,
}
use willo_main.Fat.Table.{end_of_chain}
use willo_main.Fat.Sectors.{
  Ends, Ends-continue, Ends-weaken, Same, gather, gather-kept, read_sectors-Ends,
}
use willo_main.Fat.Linked.{next_cluster-Ends}
use willo_main.Fat.Volume.{IsVolume, in_chain_lem}
use willo_main.Fat.Slots.{IsSized, entry}
use willo_main.Fat.Search.{entry-Same}
use willo_main.Fat.Grown.{IsChain}
use willo_main.Fat.Freed.{IsInside}
use willo_main.Fat.Filled.{slots_run, slots}
use willo_main.Fat.Added.{IsChain-Same}

take_of_front : (n : ℕ) (a b : Text) → n ≤ length a → take n (a ++ b) ≡ take n a
take_of_front zero a b h = refl
take_of_front (suc n) [] b h = absurd (omega (arith, h))
take_of_front (suc n) (x ∷ a) b h = ap (λ t. x ∷ t) (take_of_front n a b (omega (arith, h)))

drop_of_front : (n : ℕ) (a b : Text) → n ≤ length a → drop n (a ++ b) ≡ drop n a ++ b
drop_of_front zero a b h = refl
drop_of_front (suc n) [] b h = absurd (omega (arith, h))
drop_of_front (suc n) (x ∷ a) b h = drop_of_front n a b (omega (arith, h))

chunks-append :
    (k n : ℕ) (a b : Text) → length a ≡ k * 32 → chunks (k + n) (a ++ b) ≡ chunks k a ++ chunks n b
unfolding chunks
chunks-append zero n [] b h = let e : 0 + n ≡ n = omega arith in ap (λ m. chunks m b) e
chunks-append zero n (x ∷ a) b h = absurd (omega (arith, h))
chunks-append (suc k) n a b h =
    let e : suc k + n ≡ suc (k + n) = omega arith in
    let left : length (drop 32 a) ≡ k * 32 = omega (arith, h, length-drop 32 a) in
    ap (λ m. chunks m (a ++ b)) e
    ∙ (ap (λ t. t ∷ chunks (k + n) (drop 32 (a ++ b))) (take_of_front 32 a b (omega (arith, h)))
        ∙ ap (λ t. take 32 a ∷ t)
            (ap (chunks (k + n)) (drop_of_front 32 a b (omega (arith, h)))
              ∙ chunks-append k n (drop 32 a) b left))

module _ {W E : Type 0} (drive : BlockDevice W) (block : W → ℕ → Text) (disk : IsDisk drive block)
    (bad : FailsOnlyIf E drive block) (v : FatFs) (vol : IsVolume v) where
  abbrev Sized : W → Type 0
  Sized w = IsSized drive block disk bad v vol w

  abbrev cluster : W → ℕ → Text
  cluster w c = gather drive block disk bad w v.sectors_per_cluster (cluster_to_lba v c)

  -- All bytes of the clusters.
  abbrev contents : W → List ℕ → Text
  contents w [] = []
  contents w (c ∷ cs) = cluster w c ++ contents w cs

  abbrev total : List ℕ → ℕ
  total [] = 0
  total (c ∷ cs) = v.sectors_per_cluster * 16 + total cs

  length-gather :
      (w : W) (count lba : ℕ)
      → Sized w
      → length (gather drive block disk bad w count lba) ≡ count * 512
  length-gather w zero lba s = omega arith
  length-gather w (suc count) lba s = omega (
    arith,
    length-append (block w lba) (gather drive block disk bad w count (lba + 1)),
    s lba,
    length-gather w count (lba + 1) s,
  )

  chunks-gather :
      (w : W) (count lba : ℕ)
      → Sized w
      → chunks (count * 16) (gather drive block disk bad w count lba)
        ≡ slots_run drive block disk bad v vol w count lba
  unfolding chunks
  chunks-gather w zero lba s = refl
  chunks-gather w (suc count) lba s =
      let e : suc count * 16 ≡ 16 + count * 16 = omega arith in
      ap (λ m. chunks m (gather drive block disk bad w (suc count) lba)) e
      ∙ (chunks-append 16 (count * 16) (block w lba) (gather drive block disk bad w count (lba + 1))
            (s lba)
          ∙ ap (λ t. chunks 16 (block w lba) ++ t) (chunks-gather w count (lba + 1) s))

  chunks-contents :
      (w : W) (cs : List ℕ)
      → Sized w
      → chunks (total cs) (contents w cs) ≡ slots drive block disk bad v vol w cs
  unfolding chunks
  chunks-contents w [] s = refl
  chunks-contents w (c ∷ cs) s =
      chunks-append (v.sectors_per_cluster * 16) (total cs) (cluster w c) (contents w cs)
        (length-gather w v.sectors_per_cluster (cluster_to_lba v c) s ∙ omega arith)
      ∙ (ap (λ t. t ++ chunks (total cs) (contents w cs))
            (chunks-gather w v.sectors_per_cluster (cluster_to_lba v c) s)
          ∙ ap
              (λ t.
                slots_run drive block disk bad v vol w v.sectors_per_cluster (cluster_to_lba v c)
                ++ t)
              (chunks-contents w cs s))

  length-contents : (w : W) (cs : List ℕ) → Sized w → length (contents w cs) ≡ total cs * 32
  length-contents w [] s = omega arith
  length-contents w (c ∷ cs) s = omega (
    arith,
    length-append (cluster w c) (contents w cs),
    length-contents w cs s,
    length-gather w v.sectors_per_cluster (cluster_to_lba v c) s,
  )

  total-length : (cs : List ℕ) → total cs * 32 ≡ length cs * (v.sectors_per_cluster * 512)
  total-length [] = omega arith
  total-length (c ∷ cs) = omega (arith, total-length cs)

  -- A round that does not reach the limit.
  round_lem :
      (P : Text → W → Type 0) (p fuel max : ℕ) (out : Text) (w : W)
      → IsInside drive block disk bad v vol p
      → Sized w
      → length out + v.sectors_per_cluster * 512 < max
      → ((w2 : W)
          → Same drive block disk bad w w2
          → Ends E P (
              read_chain drive v fuel
                (entry drive block disk bad v vol w p)
                max
                (out ++ cluster w p)
                w2))
      → Ends E P (read_chain drive v (suc fuel) p max out w)
  unfolding read_chain
  round_lem P p fuel max out w i s few go = rw (in_chain_lem v vol p i.0 i.1) (
      Ends-continue E (λ buf w1. (buf ≡ cluster w p) × Same drive block disk bad w w1) P
        (read_sectors drive v.sectors_per_cluster (cluster_to_lba v p) w) _
        (read_sectors-Ends drive block disk bad v.sectors_per_cluster (cluster_to_lba v p) w)
        (λ buf w1 one.
          let size : length (out ++ buf) ≡ length out + v.sectors_per_cluster * 512 =
            length-append out buf
            ∙ ap (λ k. length out + k)
                (ap length one.0 ∙ length-gather w v.sectors_per_cluster (cluster_to_lba v p) s) in
          let below : leb max (length (out ++ buf)) ≡ false = ground (arith, size, few) in
          rw below (
            Ends-continue E
              (λ next w2.
                (next ≡ entry drive block disk bad v vol w1 p) × Same drive block disk bad w1 w2)
              P (next_cluster drive v p w1) _ (next_cluster-Ends drive block disk bad v p w1)
              (λ next w2 two.
                subst (λ n. Ends E P (read_chain drive v fuel n max (out ++ buf) w2))
                  (sym (two.0 ∙ entry-Same drive block disk bad v vol w w1 p one.1))
                  (subst
                    (λ b. Ends E P (
                      read_chain drive v fuel (entry drive block disk bad v vol w p) max (out ++ b)
                        w2))
                    (sym one.0) (go w2 (λ l. two.1 l ∙ one.1 l)))))))

  -- The chain is at its end.
  stops :
      (fuel max : ℕ) (out : Text) (w : W)
      → read_chain drive v (suc fuel) end_of_chain max out w ≡ (done out, w)
  unfolding read_chain in_chain
  stops fuel max out w = refl

  contents-Same :
      (w w2 : W) (cs : List ℕ) → Same drive block disk bad w w2 → contents w2 cs ≡ contents w cs
  contents-Same w w2 [] s = refl
  contents-Same w w2 (c ∷ cs) s =
      ap (λ t. t ++ contents w2 cs)
        (gather-kept drive block disk bad w w2 v.sectors_per_cluster (cluster_to_lba v c)
          (λ l a b. s l))
      ∙ ap (λ t. cluster w c ++ t) (contents-Same w w2 cs s)

  abbrev ReadsAll : Text → List ℕ → W → Text → W → Type 0
  ReadsAll out cs w all w' = (all ≡ out ++ contents w cs) × Same drive block disk bad w w'

  read_chain_all :
      (cs : List ℕ) (p fuel max : ℕ) (out : Text) (w : W)
      → All (IsInside drive block disk bad v vol) (p ∷ cs)
      → IsChain drive block disk bad v vol w p cs
      → Sized w
      → length out + total (p ∷ cs) * 32 < max
      → suc (length cs) < fuel
      → Ends E (ReadsAll out (p ∷ cs) w) (read_chain drive v fuel p max out w)
  read_chain_all cs p zero max out w i h s few k = absurd (omega (arith, k))
  read_chain_all cs p (suc zero) max out w i h s few k = absurd (omega (arith, k))
  read_chain_all [] p (suc (suc fuel)) max out w i h s few k =
      round_lem (ReadsAll out (p ∷ []) w) p (suc fuel) max out w i.0 s (omega (arith, few))
        (λ w2 same.
          subst
            (λ q.
              Ends E (ReadsAll out (p ∷ []) w)
                (read_chain drive v (suc fuel) q max (out ++ cluster w p) w2))
            (sym h)
            (subst (Ends E (ReadsAll out (p ∷ []) w)) (sym (stops fuel max (out ++ cluster w p) w2))
              (ap (λ t. out ++ t) (sym (append-nil (cluster w p))), same)))
  read_chain_all (c ∷ cs) p (suc (suc fuel)) max out w i (h, hs) s few k =
      round_lem (ReadsAll out (p ∷ c ∷ cs) w) p (suc fuel) max out w i.0 s (omega (arith, few))
        (λ w2 same.
          subst
            (λ q.
              Ends E (ReadsAll out (p ∷ c ∷ cs) w)
                (read_chain drive v (suc fuel) q max (out ++ cluster w p) w2))
            (sym h)
            (Ends-weaken E (read_chain drive v (suc fuel) c max (out ++ cluster w p) w2)
              (read_chain_all cs c (suc fuel) max (out ++ cluster w p) w2 i.1
                (IsChain-Same drive block disk bad v vol w w2 c cs same hs)
                (λ l. ap length (same l) ∙ s l)
                (omega (
                  arith,
                  few,
                  length-append out (cluster w p),
                  length-gather w v.sectors_per_cluster (cluster_to_lba v p) s,
                ))
                (omega (arith, k)))
              (λ all w3 r. (
                r.0
                    ∙ (append_assoc out (cluster w p) (contents w2 (c ∷ cs))
                        ∙ ap (λ t. out ++ (cluster w p ++ t)) (contents-Same w w2 (c ∷ cs) same)),
                λ l. r.1 l ∙ same l,
              ))))

  pub read_dir-Ends :
      (cs : List ℕ) (p fuel : ℕ) (w : W)
      → All (IsInside drive block disk bad v vol) (p ∷ cs)
      → IsChain drive block disk bad v vol w p cs
      → Sized w
      → suc (length cs) * (v.sectors_per_cluster * 512) < 2 ^ 64 - 1
      → suc (length cs) < fuel
      → Ends E
          (λ es w'.
            (es ≡ entries_of (slots drive block disk bad v vol w (p ∷ cs)))
            × Same drive block disk bad w w')
          (read_dir drive v fuel p w)
  unfolding read_dir
  read_dir-Ends cs p fuel w i h s few k =
      Ends-continue E (ReadsAll [] (p ∷ cs) w)
        (λ es w'.
          (es ≡ entries_of (slots drive block disk bad v vol w (p ∷ cs)))
          × Same drive block disk bad w w')
        (read_chain drive v fuel p (2 ^ 64 - 1) [] w) _
        (read_chain_all cs p fuel (2 ^ 64 - 1) [] w i h s
          (omega (arith, few, total-length (p ∷ cs))) k)
        (λ all w1 one.
          let size : length all / 32 ≡ total (p ∷ cs) =
            omega (arith, ap length one.0, length-contents w (p ∷ cs) s) in
          (
            ap entries_of (
                ap (λ n. chunks n all) size
                ∙ (ap (chunks (total (p ∷ cs))) one.0 ∙ chunks-contents w (p ∷ cs) s)),
            one.1,
          ))
