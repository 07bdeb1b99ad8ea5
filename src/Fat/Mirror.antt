-- ===== src/Fat/Mirror.antt =====
-- `write_fat_entry` (kernel/src/fs/fat.rs) on a drive that keeps what is written.
use willo_main.Prelude.{
  ℕ, zero, suc, ◌+◌, ◌*◌, ◌/◌, ◌%◌, ◌^◌, ◌≤◌, ◌<◌, ◌≡◌, ◌≢◌, ◌⊎◌, inl, inr, sym, ap, ◌∙◌, Text,
  ◌==◌, ==_iff, length, Bool-cases, arith,
}
use willo_main.Block.{BlockDevice, IsDisk}
use willo_main.Fat.{FatFs, word32, cluster_mod}
use willo_main.Fat.Io.{done, ret-done, continue-done, from_block-done}
use willo_main.Fat.Chain.{fat_sector, in_sector, read_sector, write_sector, next_cluster}
use willo_main.Fat.Table.{set_entry, write_copies, write_fat_entry}
use willo_main.Fat.Words.{word32-set_entry, word32-set_entry_other}

-- The sector that holds a cluster's entry in the copy `i`.
abbrev pub copy_sector : FatFs → ℕ → ℕ → ℕ
copy_sector v cluster i = (fat_sector v cluster + i * v.sectors_per_fat) % 2 ^ 32

module _ {W : Type 0} (drive : BlockDevice W) (block : W → ℕ → Text) (disk : IsDisk drive block)
    (v : FatFs) (cluster value : ℕ) where
  -- No two of the copies share the sector.
  abbrev pub AreApart : ℕ → ℕ → Type 0
  AreApart i count =
      (j k : ℕ) → i ≤ j → j < k → k < i + count → copy_sector v cluster j ≢ copy_sector v cluster k

  -- One round of the loop.
  round_lem :
      (i : ℕ) (w w' : W) (count : ℕ)
      → write_copies drive v (suc count) i cluster value w ≡ (done tt, w')
      → (w2 : W) × (block w2 (copy_sector v cluster i)
          ≡ set_entry (block w (copy_sector v cluster i)) (in_sector v cluster) value)
        × ((l : ℕ) → l ≢ copy_sector v cluster i → block w2 l ≡ block w l)
        × (write_copies drive v count (i + 1) cluster value w2 ≡ (done tt, w'))
  unfolding write_copies
  round_lem i w w' count h =
      let (buf, w1, e1, h1) =
        continue-done (read_sector drive (copy_sector v cluster i) w) _ tt w' h in
      let (done_tt, w2, e2, h2) =
        continue-done
          (write_sector drive (copy_sector v cluster i) (set_entry buf (in_sector v cluster) value)
            w1)
          _ tt w' h1 in
      let (same_buf, kept) =
        disk.reads (copy_sector v cluster i) buf w w1 (from_block-done _ buf w1 e1) in
      let (written, others) =
        disk.writes (copy_sector v cluster i) _ w1 w2 (from_block-done _ tt w2 e2) in
      (
        w2,
        written ∙ ap (λ b. set_entry b (in_sector v cluster) value) same_buf,
        (λ l ne. others l ne ∙ kept l),
        h2,
      )

  pub write_copies_lem :
      (count i : ℕ) (w w' : W)
      → AreApart i count
      → write_copies drive v count i cluster value w ≡ (done tt, w')
      → ((k : ℕ)
          → i ≤ k
          → k < i + count
          → block w' (copy_sector v cluster k)
            ≡ set_entry (block w (copy_sector v cluster k)) (in_sector v cluster) value)
        × ((l : ℕ)
            → ((k : ℕ) → i ≤ k → k < i + count → l ≢ copy_sector v cluster k)
            → block w' l ≡ block w l)
  unfolding write_copies
  write_copies_lem zero i w w' apart h =
      ((λ k a b. absurd (omega arith)), (λ l ne. ap (λ x. block x l) (sym (ap (λ r. r.1) h))))
  write_copies_lem (suc count) i w w' apart h =
      let (w2, here, others, h2) = round_lem i w w' count h in
      let (copies, rest) =
        write_copies_lem count (i + 1) w2 w' (λ j k a b c. apart j k (omega arith) b (omega arith))
          h2 in
      (
        (λ k a b. elim (Bool-cases (k == i)) [
          | inl e ↦
              let e1 = (==_iff k i).0 e in
              ap (λ n. block w' (copy_sector v cluster n)) e1
              ∙ (rest (copy_sector v cluster i)
                    (λ m c d. apart i m (omega arith) (omega arith) (omega arith))
                  ∙ (here
                      ∙ ap
                          (λ n.
                            set_entry (block w (copy_sector v cluster n)) (in_sector v cluster)
                              value)
                          (sym e1)))
          | inr e ↦
              let less : i < k = ground (arith, e) in
              copies k (omega arith) (omega arith)
              ∙ ap (λ b. set_entry b (in_sector v cluster) value)
                  (others (copy_sector v cluster k)
                    (λ q. apart i k (omega arith) less (omega arith) (sym q)))
        ]),
        (λ l ne.
            rest l (λ k a b. ne k (omega arith) (omega arith))
            ∙ others l (ne i (omega arith) (omega arith))),
      )

  -- On a drive that keeps what is written, where no two copies of the FAT share the sector of a
  -- cluster's entry, a write_fat_entry that succeeds leaves in every copy the low 28 bits of the
  -- value in the entry, its four high bits and every other word of that sector as they were, and
  -- no other block changed.
  pub write_fat_entry_lem :
      (w w' : W)
      → AreApart 0 v.num_fats
      → ((l : ℕ) → in_sector v cluster ≤ length (block w l))
      → ((l : ℕ) → word32 (block w l) (in_sector v cluster) < 2 ^ 32)
      → write_fat_entry drive v cluster value w ≡ (done tt, w')
      → ((k : ℕ)
          → k < v.num_fats
          → (word32 (block w' (copy_sector v cluster k)) (in_sector v cluster) % cluster_mod
              ≡ value % cluster_mod)
            × (word32 (block w' (copy_sector v cluster k)) (in_sector v cluster) / cluster_mod
                ≡ word32 (block w (copy_sector v cluster k)) (in_sector v cluster) / cluster_mod)
            × ((j : ℕ)
                → (j + 4 ≤ in_sector v cluster) ⊎ (in_sector v cluster + 4 ≤ j)
                → word32 (block w' (copy_sector v cluster k)) j
                  ≡ word32 (block w (copy_sector v cluster k)) j))
        × ((l : ℕ)
            → ((k : ℕ) → k < v.num_fats → l ≢ copy_sector v cluster k)
            → block w' l ≡ block w l)
  unfolding write_fat_entry
  write_fat_entry_lem w w' apart long word h =
      let (copies, rest) = write_copies_lem v.num_fats 0 w w' apart h in
      (
        (λ k small.
            let s = copy_sector v cluster k in
            let e : block w' s ≡ set_entry (block w s) (in_sector v cluster) value =
              copies k (omega arith) (omega arith) in
            let (low, high) =
              word32-set_entry (block w s) (in_sector v cluster) value (long s) (word s) in
            (
              ap (λ b. word32 b (in_sector v cluster) % cluster_mod) e ∙ low,
              ap (λ b. word32 b (in_sector v cluster) / cluster_mod) e ∙ high,
              (λ j d.
                  ap (λ b. word32 b j) e
                  ∙ word32-set_entry_other (block w s) (in_sector v cluster) value j (long s) d),
            )),
        (λ l ne. rest l (λ k a b. ne k (omega arith))),
      )

  first_copy : copy_sector v cluster 0 ≡ fat_sector v cluster
  first_copy = omega arith

  next_cluster-reads :
      (w w' : W) (next : ℕ)
      → next_cluster drive v cluster w ≡ (done next, w')
      → next ≡ word32 (block w (fat_sector v cluster)) (in_sector v cluster) % cluster_mod
  unfolding next_cluster
  next_cluster-reads w w' next h =
      let (buf, w1, e1, h1) =
        continue-done (read_sector drive (fat_sector v cluster) w) _ next w' h in
      let (same_buf, kept) =
        disk.reads (fat_sector v cluster) buf w w1 (from_block-done _ buf w1 e1) in
      ret-done _ next w1 w' h1 ∙ ap (λ b. word32 b (in_sector v cluster) % cluster_mod) same_buf

  -- On a drive that keeps what is written, where no two copies of the FAT share the sector of a
  -- cluster's entry, if write_fat_entry succeeds and then next_cluster of the cluster succeeds, it
  -- gives the low 28 bits of the value that was written.
  pub next_cluster-write_fat_entry :
      (w w' w'' : W) (next : ℕ)
      → 0 < v.num_fats
      → AreApart 0 v.num_fats
      → ((l : ℕ) → in_sector v cluster ≤ length (block w l))
      → ((l : ℕ) → word32 (block w l) (in_sector v cluster) < 2 ^ 32)
      → write_fat_entry drive v cluster value w ≡ (done tt, w')
      → next_cluster drive v cluster w' ≡ (done next, w'')
      → next ≡ value % cluster_mod
  next_cluster-write_fat_entry w w' w'' next some_copy apart long word h read =
      let (copies, rest) = write_fat_entry_lem w w' apart long word h in
      let (low, high, others) = copies 0 some_copy in
      next_cluster-reads w' w'' next read
      ∙ (ap (λ s. word32 (block w' s) (in_sector v cluster) % cluster_mod) (sym first_copy) ∙ low)
