-- ===== src/Fat/Stored.antt =====
-- `store_data` (kernel/src/fs/fat.rs, in `write_file`): the contents of a file go into a new chain, on a
-- drive that keeps what is written.
use willo_main.Prelude.{
  ℕ, suc, ◌*◌, ◌%◌, ◌≤◌, ◌<◌, ◌≡◌, ◌⊎◌, inl, inr, sym, ap, ◌∙◌, subst, false, Text, List, ◌∷◌,
  length, All-map, if◌then◌else◌, arith,
}
use willo_main.Path.{is_empty}
use willo_main.Block.{BlockDevice, IsDisk, FailsOnlyIf}
use willo_main.Fat.{FatFs, word32, cluster_mod}
use willo_main.Fat.Io.{Io, ret, ◌>>=◌, ◌>>◌}
use willo_main.Fat.Chain.{cluster_bytes, fat_sector, in_sector}
use willo_main.Fat.Table.{allocate_chain, write_chain}
use willo_main.Fat.Files.{clusters_for, store_data}
use willo_main.Fat.Sectors.{Ends, Ends-continue, Ends-fails}
use willo_main.Fat.Linked.{Holds}
use willo_main.Fat.Written.{IsLaid, Avoids-data, IsStored, write_chain-Ends}
use willo_main.Fat.Volume.{IsVolume, entries, fat_sector_lem, copy_end}
use willo_main.Fat.Slots.{IsSized, entry}
use willo_main.Fat.Grown.{IsShort, IsBeside}
use willo_main.Fat.Allocated.{IsAllocated, IsChain-kept, Allocates, allocate_chain-Ends}
use willo_main.Fat.Fresh.{Ends-Yields, write_chain-Yields, IsLaid-new, IsLinked-new, room-length}

module _ {W E : Type 0} (drive : BlockDevice W) (block : W → ℕ → Text) (disk : IsDisk drive block)
    (bad : FailsOnlyIf E drive block) (v : FatFs) (vol : IsVolume v) where
  abbrev Sized : W → Type 0
  Sized w = IsSized drive block disk bad v vol w

  -- A new chain that holds the bytes.
  pub record IsFile (head n : ℕ) (bytes : Text) (w w' : W) : Type 0 where
    pub rest : List ℕ
    pub count : length rest ≡ n
    pub new : IsAllocated drive block disk bad v vol head rest w w'
    pub holds : Holds drive block disk bad v w' (head ∷ rest) bytes

  -- Writing into a new chain changes neither the FAT nor any block beside it.
  written :
      (head : ℕ) (cs : List ℕ) (n : ℕ) (bytes : Text) (w w1 w2 : W)
      → length cs ≡ n
      → IsAllocated drive block disk bad v vol head cs w w1
      → IsStored drive block disk bad v vol.sector_size (head ∷ cs) bytes w1 w2
      → Sized w2
      → IsFile head n bytes w w2
  written head cs n bytes w w1 w2 size a (holds, kept) s = record {
    rest = cs;
    count = size;
    new = record {
      free = a.free;
      distinct = a.distinct;
      others = λ d k ns. same d k ∙ a.others d k ns;
      beside = λ l o. beside l o ∙ a.beside l o;
      sized = s;
      chain =
          IsChain-kept drive block disk bad v vol w1 w2 head cs same
            (All-map (λ d f. f.1) (head ∷ cs) a.free) a.chain;
    };
    holds = holds;
  }
    where
      laid : IsLaid v (head ∷ cs)
      laid = IsLaid-new drive block disk bad v vol w (head ∷ cs) a.free a.distinct

      same :
          (d : ℕ)
          → d < entries v vol
          → entry drive block disk bad v vol w2 d ≡ entry drive block disk bad v vol w1 d
      same d k =
          ap (λ b. word32 b (in_sector v d) % cluster_mod)
            (kept (fat_sector v d) (
              Avoids-data v (fat_sector v d) (head ∷ cs) laid
                (omega (arith, fat_sector_lem v vol d k, k, copy_end v vol 0 vol.some_fats))))

      beside : (l : ℕ) → IsBeside drive block disk bad v vol l (head ∷ cs) → block w2 l ≡ block w1 l
      beside l (ne, inl x) =
          kept l (Avoids-data v l (head ∷ cs) laid (omega (arith, x, vol.data_behind)))
      beside l (ne, inr (x, o)) = kept l o

  abbrev stores : ℕ → Text → Io W ℕ
  stores n bytes = do
    head ← allocate_chain drive v n
    write_chain drive v (suc (length bytes)) head bytes
    ret head

  store_data_lem :
      (fuel : ℕ) (bytes : Text) (w : W)
      → is_empty bytes ≡ false
      → store_data drive v fuel bytes w ≡ stores (clusters_for v bytes) bytes w
  unfolding store_data
  store_data_lem fuel bytes w e =
      ap (λ b. (if b then ret 0 else stores (clusters_for v bytes) bytes) w) e

  pub store_data-Ends :
      (fuel n : ℕ) (bytes : Text) (w : W)
      → Sized w
      → is_empty bytes ≡ false
      → length bytes ≤ suc n * cluster_bytes v
      → n < length bytes
      → clusters_for v bytes ≡ suc n
      → Ends
          (E ⊎ IsShort drive block disk bad v vol (suc n) w)
          (λ head w'. IsFile head n bytes w w')
          (store_data drive v fuel bytes w)
  store_data-Ends fuel n bytes w s e fits more count =
      let F = E ⊎ IsShort drive block disk bad v vol (suc n) w in
      subst (Ends F (λ head w'. IsFile head n bytes w w'))
        (sym (store_data_lem fuel bytes w e ∙ ap (λ k. stores k bytes w) count))
        (Ends-continue F (Allocates drive block disk bad v vol n w)
          (λ head w'. IsFile head n bytes w w') (allocate_chain drive v (suc n) w) _
          (allocate_chain-Ends drive block disk bad v vol n w s)
          (λ head w1 one.
            let laid =
              IsLaid-new drive block disk bad v vol w (head ∷ one.0) (one.2).free
                (one.2).distinct in
            let linked =
              IsLinked-new drive block disk bad v vol w w1 head one.0 (one.2).free (one.2).chain in
            Ends-continue F
              (λ u w2.
                IsStored drive block disk bad v vol.sector_size (head ∷ one.0) bytes w1 w2
                × Sized w2)
              (λ head w'. IsFile head n bytes w w')
              (write_chain drive v (suc (length bytes)) head bytes w1) _
              (Ends-fails E _ (write_chain drive v (suc (length bytes)) head bytes w1) (λ x. inl x)
                (Ends-Yields E
                  (λ u w2.
                    IsStored drive block disk bad v vol.sector_size (head ∷ one.0) bytes w1 w2)
                  Sized (write_chain drive v (suc (length bytes)) head bytes w1)
                  (write_chain-Ends drive block disk bad v vol.sector_size one.0
                    (suc (length bytes)) head bytes w1 laid linked e
                    (omega (
                      arith,
                      fits,
                      room-length drive block disk bad v vol (head ∷ one.0),
                      ap (λ k. suc k * cluster_bytes v) one.1,
                    ))
                    (omega (arith, one.1, more)))
                  (write_chain-Yields drive block disk bad v vol (suc (length bytes)) head bytes w1
                    (one.2).sized)))
              (λ u w2 two. written head one.0 n bytes w w1 w2 one.1 one.2 two.0 two.1)))
