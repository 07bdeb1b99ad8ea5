-- ===== src/Fat/Found.antt =====
-- Looking up a file in the root directory (kernel/src/fs/fat.rs), on a drive that keeps what is written.
use willo_main.Prelude.{
  ℕ, suc, ◌-◌, ◌*◌, ◌^◌, ◌≤◌, ◌<◌, ◌≡◌, refl, sym, ap, ◌∙◌, subst, false, ◌||◌, Option, none, some,
  List, [], ◌∷◌, Text, codes, same, ltb, ◌==◌, if◌then◌else◌, length, take, All, arith,
}
use willo_main.Path.{segments, is_empty}
use willo_main.Block.{BlockDevice, IsDisk, FailsOnlyIf}
use willo_main.Fat.{FatFs, DirEntry}
use willo_main.Fat.Io.{Io, done, ret, raise, ◌>>=◌, continue}
use willo_main.Fs.{is_a_dir, not_a_dir, io}
use willo_main.Fat.Chain.{
  entries_of, find_entry, read_chain, read_dir, find_in_dir, walk_dirs, lookup, read_file, is_dir,
  cluster_for,
}
use willo_main.Fat.Files.{split_parent, parent_of}
use willo_main.Fat.Sectors.{Ends, Ends-continue, Same}
use willo_main.Fat.Volume.{IsVolume}
use willo_main.Fat.Slots.{IsSized}
use willo_main.Fat.Grown.{AreDistinct, IsChain}
use willo_main.Fat.Freed.{IsInside}
use willo_main.Fat.Filled.{slots}
use willo_main.Fat.Listed.{read_dir-Ends}

-- A path of a file in the root directory, with its name.
pub record IsRootPath (abs name : Text) : Type 0 where
  pub split : split_parent abs ≡ some (codes "/", name)
  pub below : (same abs (codes "/") || is_empty abs) ≡ false
  pub parts : segments abs ≡ name ∷ []

module _ {W E : Type 0} (drive : BlockDevice W) (block : W → ℕ → Text) (disk : IsDisk drive block)
    (bad : FailsOnlyIf E drive block) (v : FatFs) (vol : IsVolume v) where
  -- The clusters of a directory, of which `p` is the first.
  pub record IsDirectory (p : ℕ) (cs : List ℕ) (w : W) : Type 0 where
    pub inside : All (IsInside drive block disk bad v vol) (p ∷ cs)
    pub distinct : AreDistinct (p ∷ cs)
    pub chain : IsChain drive block disk bad v vol w p cs
    pub limited : suc (length cs) * (v.sectors_per_cluster * 512) < 2 ^ 64 - 1

  -- What a directory lists under a name.
  abbrev pub listed : Text → List ℕ → W → Option DirEntry
  listed name cs w = find_entry name (entries_of (slots drive block disk bad v vol w cs))

  abbrev Sized : W → Type 0
  Sized w = IsSized drive block disk bad v vol w

  abbrev Gives : {A : Type 0} → A → W → A → W → Type 0
  Gives a w a' w' = (a' ≡ a) × Same drive block disk bad w w'

  pub find_in_dir-Ends :
      (p fuel : ℕ) (cs : List ℕ) (name : Text) (w : W)
      → IsDirectory p cs w
      → Sized w
      → suc (length cs) < fuel
      → Ends E
          (λ e w'. (e ≡ listed name (p ∷ cs) w) × Same drive block disk bad w w')
          (find_in_dir drive v fuel p name w)
  unfolding find_in_dir
  find_in_dir-Ends p fuel cs name w d s k =
      Ends-continue E
        (λ es w'.
          (es ≡ entries_of (slots drive block disk bad v vol w (p ∷ cs)))
          × Same drive block disk bad w w')
        (λ e w'. (e ≡ listed name (p ∷ cs) w) × Same drive block disk bad w w')
        (read_dir drive v fuel p w) _
        (read_dir-Ends drive block disk bad v vol cs p fuel w d.inside d.chain s d.limited k)
        (λ es w1 one. (ap (find_entry name) one.0, one.1))

  lookup-Ends :
      (abs name : Text) (cs : List ℕ) (fuel : ℕ) (e : DirEntry) (w : W)
      → IsRootPath abs name
      → IsDirectory v.root_cluster cs w
      → Sized w
      → suc (length cs) < fuel
      → listed name (v.root_cluster ∷ cs) w ≡ some e
      → Ends E (Gives e w) (lookup drive v fuel abs w)
  unfolding lookup walk_dirs
  lookup-Ends abs name cs fuel e w path d s k h =
      rw (path.below, path.parts)
        (Ends-continue E
          (λ es w'.
            (es ≡ entries_of (slots drive block disk bad v vol w (v.root_cluster ∷ cs)))
            × Same drive block disk bad w w')
          (Gives e w) (read_dir drive v fuel v.root_cluster w) _
          (read_dir-Ends drive block disk bad v vol cs v.root_cluster fuel w d.inside d.chain s
            d.limited k)
          (λ es w1 one.
            let here : find_entry name es ≡ some e = ap (find_entry name) one.0 ∙ h in
            rw here (refl, one.1)))

  -- The rest of read_file, behind the lookup.
  abbrev read_entry : ℕ → DirEntry → Io W Text
  read_entry fuel e =
      if e.is_dir
      then raise is_a_dir
      else if e.size == 0 || ltb e.cluster 2
      then ret []
      else (do out ← read_chain drive v fuel e.cluster e.size []; ret (take e.size out))

  read_entry-Ends :
      (fuel : ℕ) (e : DirEntry) (bytes : Text) (w : W)
      → e.is_dir ≡ false
      → 2 ≤ e.cluster
      → 0 < e.size
      → Ends E (λ all w'. take e.size all ≡ bytes) (read_chain drive v fuel e.cluster e.size [] w)
      → Ends E (λ all w'. all ≡ bytes) (read_entry fuel e w)
  read_entry-Ends fuel e bytes w file low some_size h =
      let filled : (e.size == 0 || ltb e.cluster 2) ≡ false = ground (arith, low, some_size) in
      rw (file, filled)
        (Ends-continue E (λ all w'. take e.size all ≡ bytes) (λ all w'. all ≡ bytes)
          (read_chain drive v fuel e.cluster e.size [] w) _ h (λ out w1 one. one))

  -- A file that the root directory lists is read along its chain.
  pub read_file-Ends :
      (abs name : Text) (cs : List ℕ) (fuel : ℕ) (e : DirEntry) (bytes : Text) (w : W)
      → IsRootPath abs name
      → IsDirectory v.root_cluster cs w
      → Sized w
      → suc (length cs) < fuel
      → listed name (v.root_cluster ∷ cs) w ≡ some e
      → e.is_dir ≡ false
      → 2 ≤ e.cluster
      → 0 < e.size
      → ((w1 : W)
          → Same drive block disk bad w w1
          → Ends E
              (λ all w'. take e.size all ≡ bytes)
              (read_chain drive v fuel e.cluster e.size [] w1))
      → Ends E (λ all w'. all ≡ bytes) (read_file drive v fuel abs w)
  unfolding read_file
  read_file-Ends abs name cs fuel e bytes w path d s k h file low some_size reads =
      Ends-continue E (Gives e w) (λ all w'. all ≡ bytes) (lookup drive v fuel abs w)
        (read_entry fuel) (lookup-Ends abs name cs fuel e w path d s k h)
        (λ e' w1 one.
          subst (λ x. Ends E (λ all w'. all ≡ bytes) (read_entry fuel x w1)) (sym one.0)
            (read_entry-Ends fuel e bytes w1 file low some_size (reads w1 one.1)))

  abbrev parts_of : Option (Text × Text) → Io W (Text × Text)
  parts_of o = elim o [ none ↦ raise io | some parts ↦ ret parts ]

  abbrev with_parent : ℕ → Text × Text → Io W (Text × ℕ × Text)
  with_parent fuel (parent, name) = do
    there ← is_dir drive v fuel parent
    if there
        then (do cluster ← cluster_for drive v fuel parent; ret (parent, cluster, name))
        else raise not_a_dir

  -- The parent of a path in the root directory is found without the drive.
  pub parent_of-root :
      (abs name : Text) (fuel : ℕ) (w : W)
      → IsRootPath abs name
      → parent_of drive v fuel abs w ≡ (done (codes "/", v.root_cluster, name), w)
  unfolding parent_of lookup same
  parent_of-root abs name fuel w path =
      ap (λ o. continue (parts_of o w) (with_parent fuel)) path.split
