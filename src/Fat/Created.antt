-- ===== src/Fat/Created.antt =====
-- A new file in the root directory (kernel/src/fs/fat.rs, `write_file` and then `read_file`), on a drive
-- that keeps what is written.
use willo_main.Prelude.{
  ℕ, suc, ◌%◌, ◌^◌, ◌≤◌, ◌<◌, ◌≡◌, ◌⊎◌, inl, inr, refl, sym, ap, ◌∙◌, subst, true, false, none,
  some, List, [], ◌∷◌, Text, map, same_refl, length, take, All-map, arith,
}
use willo_main.Path.{is_empty}
use willo_main.Block.{BlockDevice, IsDisk, FailsOnlyIf}
use willo_main.Fat.{FatFs, DirEntry, lower, same_ignoring_case, write_short_entry}
use willo_main.Fat.Io.{Io, ◌>>=◌, ◌>>◌, continue}
use willo_main.Fat.Chain.{entries_of, find_entry, find_in_dir, read_chain, read_file}
use willo_main.Fat.Directory.{add_slot, add_dir_entry}
use willo_main.Fat.Files.{clusters_for, drop_old, store_data, write_file}
use willo_main.Fat.Names.{IsShortName}
use willo_main.Fat.Entry.{length-write_short_entry, read_slot-write_short_entry}
use willo_main.Fat.Sectors.{Ends, Ends-continue, Ends-weaken, Ends-fails, Same}
use willo_main.Fat.Linked.{IsLinked-Same, Holds-Same, read_chain-Ends}
use willo_main.Fat.Volume.{IsVolume, entries}
use willo_main.Fat.Slots.{IsSized, entry}
use willo_main.Fat.Search.{entry-Same}
use willo_main.Fat.Grown.{IsShort}
use willo_main.Fat.Allocated.{IsChain-kept}
use willo_main.Fat.Fresh.{IsLinked-new, clusters_for_lem}
use willo_main.Fat.Stored.{IsFile, store_data-Ends}
use willo_main.Fat.Listing.{fill, has_free, has_free-fill, find_entry-fill}
use willo_main.Fat.Filled.{slots, slots-kept}
use willo_main.Fat.Added.{IsAdded, add_slot-Ends}
use willo_main.Fat.Found.{
  IsRootPath, IsDirectory, listed, find_in_dir-Ends, read_file-Ends, parent_of-root,
}
use willo_main.Fat.Kept.{
  chain_same, Holds-kept, IsDirectory-Same, IsDirectory-IsFile, slots-IsFile, Avoids-dir,
  slot-IsAdded,
}

module _ {W E : Type 0} (drive : BlockDevice W) (block : W → ℕ → Text) (disk : IsDisk drive block)
    (bad : FailsOnlyIf E drive block) (v : FatFs) (vol : IsVolume v) where
  abbrev Sized : W → Type 0
  Sized w = IsSized drive block disk bad v vol w

  abbrev slot : W → ℕ → ℕ
  slot w c = entry drive block disk bad v vol w c

  drop_old-Ends :
      (p fuel : ℕ) (cs : List ℕ) (name : Text) (w : W)
      → IsDirectory drive block disk bad v vol p cs w
      → Sized w
      → suc (length cs) < fuel
      → listed drive block disk bad v vol name (p ∷ cs) w ≡ none
      → Ends E (λ u w'. Same drive block disk bad w w') (drop_old drive v fuel p name w)
  unfolding drop_old
  drop_old-Ends p fuel cs name w d s k h =
      Ends-continue E
        (λ e w'.
          (e ≡ listed drive block disk bad v vol name (p ∷ cs) w) × Same drive block disk bad w w')
        (λ u w'. Same drive block disk bad w w') (find_in_dir drive v fuel p name w) _
        (find_in_dir-Ends drive block disk bad v vol p fuel cs name w d s k)
        (λ e w1 one. rw (one.0 ∙ h) one.1)

  -- What the directory lists for the new file.
  abbrev entry_for : Text → ℕ → ℕ → DirEntry
  entry_for name head size = record { name = name; is_dir = false; cluster = head; size = size }

  same_name : (name : Text) → same_ignoring_case name name ≡ true
  unfolding same_ignoring_case
  same_name name = same_refl (map lower name)

  -- The file is listed and its chain is readable.
  abbrev IsThere : ℕ → List ℕ → Text → Text → ℕ → ℕ → W → Type 0
  IsThere fuel cs name bytes head size w =
      IsDirectory drive block disk bad v vol v.root_cluster cs w
      × Sized w
      × (2 ≤ head)
      × (listed drive block disk bad v vol name (v.root_cluster ∷ cs) w
          ≡ some (entry_for name head size))
      × ((w1 : W)
          → Same drive block disk bad w w1
          → Ends E (λ all w'. take size all ≡ bytes) (read_chain drive v fuel head size [] w1))

  there :
      (fuel n head : ℕ) (cs : List ℕ) (name bytes : Text) (new : List Text) (w w1 w2 : W)
      → IsDirectory drive block disk bad v vol v.root_cluster cs w
      → IsFile drive block disk bad v vol head n bytes w w1
      → IsShortName name
      → length bytes < 2 ^ 32
      → n < fuel
      → listed drive block disk bad v vol name (v.root_cluster ∷ cs) w ≡ none
      → fill
          (write_short_entry name 0x20 head (length bytes))
          (slots drive block disk bad v vol w (v.root_cluster ∷ cs))
        ≡ some new
      → IsAdded drive block disk bad v vol (v.root_cluster ∷ cs) new w1 w2
      → IsThere fuel cs name bytes head (length bytes) w2
  there fuel n head cs name bytes new w w1 w2 d f short few k none_listed filled a =
      let d1 =
        IsDirectory-IsFile drive block disk bad v vol v.root_cluster cs n head bytes w w1 d f in
      let kept : (e : ℕ) → e < entries v vol → slot w2 e ≡ slot w1 e = λ e i.
        slot-IsAdded drive block disk bad v vol (v.root_cluster ∷ cs) new w1 w2 e i d.inside a in
      let chain =
        IsChain-kept drive block disk bad v vol w1 w2 head f.rest kept
          (All-map (λ c g. g.1) (head ∷ f.rest) f.new.free) f.new.chain in
      let linked = IsLinked-new drive block disk bad v vol w w2 head f.rest f.new.free chain in
      let holds =
        Holds-kept drive block disk bad v vol w1 w2 (head ∷ f.rest) bytes
          (All-map
            (λ c g l x y. a.1 l (
              Avoids-dir drive block disk bad v vol v.root_cluster cs n head bytes w w1 d f c l g x
                y))
            (head ∷ f.rest) f.new.free)
          f.holds in
      (
        record {
          inside = d.inside;
          distinct = d.distinct;
          chain =
              chain_same drive block disk bad v vol w1 w2 v.root_cluster cs
                (All-map (λ c i. kept c i.1) (v.root_cluster ∷ cs) d.inside) d1.chain;
          limited = d.limited;
        },
        a.2,
        f.new.free.0.0,
        ap (λ ss. find_entry name (entries_of ss)) a.0
            ∙ find_entry-fill (write_short_entry name 0x20 head (length bytes)) name
                (entry_for name head (length bytes)) _ new
                (read_slot-write_short_entry name 0x20 head (length bytes) short
                  (omega (arith, f.new.free.0.1, vol.few_entries)) few refl)
                (same_name name) none_listed filled,
        λ w3 s.
            read_chain-Ends drive block disk bad v f.rest fuel head (length bytes) [] bytes w3
              (IsLinked-Same drive block disk bad v w2 w3 (head ∷ f.rest) s linked)
              (Holds-Same drive block disk bad v w2 w3 (head ∷ f.rest) bytes s holds)
              (omega (arith, f.count, k)) (omega arith),
      )

  IsShort-Same :
      (m : ℕ) (w w1 : W)
      → Same drive block disk bad w w1
      → E ⊎ IsShort drive block disk bad v vol m w1
      → E ⊎ IsShort drive block disk bad v vol m w
  IsShort-Same m w w1 s (inl x) = inl x
  IsShort-Same m w w1 s (inr (cs, few, all)) =
      inr (cs, few, λ d a b e. all d a b (entry-Same drive block disk bad v vol w w1 d s ∙ e))

  -- The methods behind the lookup of the parent.
  abbrev put_file : ℕ → ℕ → Text → Text → Io W (Unit {0})
  put_file fuel parent_cluster name bytes = do
    drop_old drive v fuel parent_cluster name
    first_cluster ← store_data drive v fuel bytes
    add_dir_entry drive v fuel parent_cluster name 0x20 first_cluster (length bytes % 2 ^ 32)

  put_file-Ends :
      (fuel : ℕ) (cs : List ℕ) (name bytes : Text) (w : W)
      → IsShortName name
      → IsDirectory drive block disk bad v vol v.root_cluster cs w
      → Sized w
      → listed drive block disk bad v vol name (v.root_cluster ∷ cs) w ≡ none
      → has_free (slots drive block disk bad v vol w (v.root_cluster ∷ cs)) ≡ true
      → is_empty bytes ≡ false
      → length bytes < 2 ^ 32
      → suc (length cs) < fuel
      → clusters_for v bytes ≤ fuel
      → Ends
          (E ⊎ IsShort drive block disk bad v vol (clusters_for v bytes) w)
          (λ u w'. (head : ℕ) × IsThere fuel cs name bytes head (length bytes) w')
          (put_file fuel v.root_cluster name bytes w)
  unfolding add_dir_entry
  put_file-Ends fuel cs name bytes w short d s none_listed free e few k enough =
      let F = E ⊎ IsShort drive block disk bad v vol (clusters_for v bytes) w in
      let Q : Unit {0} → W → Type 0 =
        λ u w'. (head : ℕ) × IsThere fuel cs name bytes head (length bytes) w' in
      let (n, count, fits, more) = clusters_for_lem drive block disk bad v vol bytes e few in
      Ends-continue F (λ u w'. Same drive block disk bad w w') Q
        (drop_old drive v fuel v.root_cluster name w) _
        (Ends-fails E (λ u w'. Same drive block disk bad w w')
          (drop_old drive v fuel v.root_cluster name w) (λ x. inl x)
          (drop_old-Ends v.root_cluster fuel cs name w d s k none_listed))
        (λ u w1 same.
          let s1 : Sized w1 = λ l. ap length (same l) ∙ s l in
          let d1 = IsDirectory-Same drive block disk bad v vol v.root_cluster cs w w1 same d in
          let slots1 =
            slots-kept drive block disk bad v vol w w1 (v.root_cluster ∷ cs)
              (All-map (λ c i l a b. same l) (v.root_cluster ∷ cs) d.inside) in
          Ends-continue F (λ head w2. IsFile drive block disk bad v vol head n bytes w1 w2) Q
            (store_data drive v fuel bytes w1) _
            (Ends-fails (E ⊎ IsShort drive block disk bad v vol (suc n) w1)
              (λ head w2. IsFile drive block disk bad v vol head n bytes w1 w2)
              (store_data drive v fuel bytes w1)
              (λ y.
                subst (λ m. E ⊎ IsShort drive block disk bad v vol m w) (sym count)
                  (IsShort-Same (suc n) w w1 same y))
              (store_data-Ends drive block disk bad v vol fuel n bytes w1 s1 e fits more count))
            (λ head w2 f.
              let size : length bytes % 2 ^ 32 ≡ length bytes = omega (arith, few) in
              let slots2 =
                slots-IsFile drive block disk bad v vol v.root_cluster cs n head bytes w1 w2 d1 f in
              let d2 =
                IsDirectory-IsFile drive block disk bad v vol v.root_cluster cs n head bytes w1 w2
                  d1 f in
              let x = write_short_entry name 0x20 head (length bytes) in
              let (new, filled) =
                has_free-fill x (slots drive block disk bad v vol w1 (v.root_cluster ∷ cs))
                  (ap has_free slots1 ∙ free) in
              subst
                (λ m.
                  Ends F Q
                    (add_slot drive v fuel v.root_cluster (write_short_entry name 0x20 head m) w2))
                (sym size)
                (Ends-fails E Q (add_slot drive v fuel v.root_cluster x w2) (λ y. inl y)
                  (Ends-weaken E (add_slot drive v fuel v.root_cluster x w2)
                    (add_slot-Ends drive block disk bad v vol cs v.root_cluster fuel x new w2
                      (length-write_short_entry name 0x20 head (length bytes) short) d2.inside
                      d2.distinct d2.chain f.new.sized (ap (fill x) slots2 ∙ filled)
                      (omega (arith, k)))
                    (λ u w3 a. (
                      head,
                      there fuel n head cs name bytes new w1 w2 w3 d1 f short few
                          (omega (arith, enough, count))
                          (ap (λ ss. find_entry name (entries_of ss)) slots1 ∙ none_listed) filled
                          a,
                    ))))))

  -- On a drive that keeps what is written and whose blocks have 512 bytes, on a volume that fits
  -- into 32 bits, for a path in the root directory with a lower-case 8.3 name that the directory
  -- does not list yet, where the directory's chain ends, its clusters are distinct and have a free
  -- slot: write_file of a non-empty text below 2^32 bytes fails only where a call of the drive
  -- fails or fewer clusters are free than the text needs, and otherwise read_file of the path
  -- gives exactly the text, unless a call of the drive fails. As many rounds as the text has
  -- clusters, and more than the directory has, are enough for both.
  pub read_file-write_file :
      (fuel : ℕ) (cs : List ℕ) (abs name bytes : Text) (w : W)
      → IsRootPath abs name
      → IsShortName name
      → IsDirectory drive block disk bad v vol v.root_cluster cs w
      → IsSized drive block disk bad v vol w
      → listed drive block disk bad v vol name (v.root_cluster ∷ cs) w ≡ none
      → has_free (slots drive block disk bad v vol w (v.root_cluster ∷ cs)) ≡ true
      → is_empty bytes ≡ false
      → length bytes < 2 ^ 32
      → suc (length cs) < fuel
      → clusters_for v bytes ≤ fuel
      → Ends
          (E ⊎ IsShort drive block disk bad v vol (clusters_for v bytes) w)
          (λ u w'. Ends E (λ all w''. all ≡ bytes) (read_file drive v fuel abs w'))
          (write_file drive v fuel abs bytes w)
  unfolding write_file
  read_file-write_file fuel cs abs name bytes w path short d s none_listed free e few k enough =
      let F = E ⊎ IsShort drive block disk bad v vol (clusters_for v bytes) w in
      let Q : Unit {0} → W → Type 0 =
        λ u w'. Ends E (λ all w''. all ≡ bytes) (read_file drive v fuel abs w') in
      subst (Ends F Q)
        (sym (
          ap
            (λ r.
              continue r
                (λ (parent, parent_cluster, name). put_file fuel parent_cluster name bytes))
            (parent_of-root drive block disk bad v vol abs name fuel w path)))
        (Ends-weaken F (put_file fuel v.root_cluster name bytes w)
          (put_file-Ends fuel cs name bytes w short d s none_listed free e few k enough)
          (λ u w1 (head, (d1, s1, low, here, reads)).
            read_file-Ends drive block disk bad v vol abs name cs fuel
              (entry_for name head (length bytes)) bytes w1 path d1 s1 k here refl low
              (some_left bytes e) reads))
    where
      some_left : (bytes : Text) → is_empty bytes ≡ false → 0 < length bytes
      some_left [] e = cc
      some_left (b ∷ bytes) e = omega arith
