-- ===== src/Fat/Grown.antt =====
-- The loop of `allocate_chain` (kernel/src/fs/fat.rs), which adds free clusters to a chain, on a drive
-- that keeps what is written.
use willo_main.Prelude.{
  ℕ, zero, suc, ◌≤◌, ◌<◌, ◌≡◌, ◌≢◌, ◌⊎◌, inl, inr, refl, sym, ap, ◌∙◌, Text, List, [], ◌∷◌, length,
  All, All-map, ◌==◌, ==_iff, false, if◌then◌else◌, Bool-cases, arith,
}
use willo_main.Block.{BlockDevice, IsDisk, FailsOnlyIf}
use willo_main.Fat.{FatFs}
use willo_main.Fat.Io.{Outcome, fail, done, unended, ◌>>◌}
use willo_main.Fat.Table.{end_of_chain, write_fat_entry, allocate_from}
use willo_main.Fat.Sectors.{Ends, Ends-continue, Ends-fails}
use willo_main.Fat.Written.{Avoids}
use willo_main.Fat.Volume.{IsVolume, entries}
use willo_main.Fat.Slots.{IsSized, entry, IsEntrySet, write_fat_entry-Ends}
use willo_main.Fat.Search.{IsFull}
use willo_main.Fat.Taken.{IsTaken, take_cluster}

abbrev pub AreDistinct : List ℕ → Type 0
AreDistinct [] = Unit
AreDistinct (c ∷ cs) = All (λ d. d ≢ c) cs × AreDistinct cs

abbrev pub IsIn : ℕ → List ℕ → Type 0
IsIn d [] = ⊥
IsIn d (c ∷ cs) = (d ≡ c) ⊎ IsIn d cs

module _ {W E : Type 0} (drive : BlockDevice W) (block : W → ℕ → Text) (disk : IsDisk drive block)
    (bad : FailsOnlyIf E drive block) (v : FatFs) (vol : IsVolume v) where
  abbrev slot : W → ℕ → ℕ
  slot w c = entry drive block disk bad v vol w c

  -- The chain from `p` on: the other clusters of it in order, and its end.
  abbrev pub IsChain : W → ℕ → List ℕ → Type 0
  IsChain w p [] = slot w p ≡ end_of_chain
  IsChain w p (c ∷ cs) = (slot w p ≡ c) × IsChain w c cs

  abbrev pub IsFree : W → ℕ → Type 0
  IsFree w c = (2 ≤ c) × (c < entries v vol) × (slot w c ≡ 0)

  -- Fewer than `count` clusters are free.
  abbrev pub IsShort : ℕ → W → Type 0
  IsShort count w =
      (cs : List ℕ) × (length cs < count)
      × ((d : ℕ) → 2 ≤ d → d < entries v vol → slot w d ≡ 0 → IsIn d cs)

  -- A block of the boot sector's region but the summary, or of clusters that are not in the list.
  abbrev pub IsBeside : ℕ → List ℕ → Type 0
  IsBeside l cs = (l ≢ 1) × ((l < v.fat_start_lba) ⊎ ((v.data_start_lba ≤ l) × Avoids v l cs))

  -- The clusters were free and are distinct, and nothing else has changed but the entry of `p`.
  pub record IsGrown (p : ℕ) (cs : List ℕ) (w w' : W) : Type 0 where
    pub free : All (IsFree w) cs
    pub distinct : AreDistinct cs
    pub others : (d : ℕ) → d < entries v vol → d ≢ p → All (λ c. d ≢ c) cs → slot w' d ≡ slot w d
    pub beside : (l : ℕ) → IsBeside l cs → block w' l ≡ block w l
    pub sized : IsSized drive block disk bad v vol w'
    pub chain : IsChain w' p cs

  module _ (p c : ℕ) (w w2 w3 : W) (low : 2 ≤ p) (inside : p < entries v vol)
      (ended : slot w p ≡ end_of_chain) (taken : IsTaken drive block disk bad v vol c w w2)
      (linked : IsEntrySet drive block disk bad v vol p c w2 w3) where
    new : c ≢ p
    new e = omega (arith, sym taken.free ∙ (ap (slot w) e ∙ ended))

    points : slot w3 p ≡ c
    points = linked.here ∙ omega (arith, taken.inside, vol.few_entries)

    end_there : slot w3 c ≡ end_of_chain
    end_there = linked.others c taken.inside new ∙ taken.here

    -- A cluster that is free afterwards was free, and is another one.
    was_free : (d : ℕ) → IsFree w3 d → IsFree w d × (d ≢ c) × (d ≢ p)
    was_free d (a, b, e) =
        let nc : d ≢ c = λ q. omega (arith, sym e ∙ (ap (slot w3) q ∙ end_there)) in
        let np : d ≢ p = λ q. omega (arith, taken.low, sym e ∙ (ap (slot w3) q ∙ points)) in
        ((a, b, sym (linked.others d b np ∙ taken.others d b nc) ∙ e), nc, np)

    kept :
        (cs : List ℕ) (w' : W)
        → IsGrown c cs w3 w'
        → (l : ℕ) → IsBeside l (c ∷ cs)
        → block w' l ≡ block w l
    kept cs w' g l (ne, inl x) =
        g.beside l (ne, inl x) ∙ (linked.outside l (inl x) ∙ taken.beside l (inl x))
    kept cs w' g l (ne, inr (x, (o, os))) =
        g.beside l (ne, inr (x, os))
        ∙ (linked.outside l (inr (omega (arith, x, vol.data_behind))) ∙ taken.beside l (inr (x, o)))

    pub IsGrown-more : (cs : List ℕ) (w' : W) → IsGrown c cs w3 w' → IsGrown p (c ∷ cs) w w'
    IsGrown-more cs w' g = record {
      free = ((taken.low, taken.inside, taken.free), All-map (λ d f. (was_free d f).0) cs g.free);
      distinct = (All-map (λ d f. (was_free d f).1) cs g.free, g.distinct);
      others =
          λ d k np (nc, ncs). g.others d k nc ncs ∙ (linked.others d k np ∙ taken.others d k nc);
      beside = kept cs w' g;
      sized = g.sized;
      chain = (
        g.others p inside (λ e. new (sym e)) (All-map (λ d f e. (was_free d f).2 (sym e)) cs g.free)
            ∙ points,
        g.chain,
      );
    }

    IsShort-step : (count : ℕ) → IsShort count w3 → IsShort (suc count) w
    IsShort-step count (cs, few, all) = (
      c ∷ cs,
      omega (arith, few),
      λ d a b e. elim (Bool-cases (d == c)) [
        | inl q ↦ inl ((==_iff d c).0 q)
        | inr q ↦
            let nc : d ≢ c = λ r. ground (arith, q, r) in
            let np : d ≢ p = λ r. omega (arith, sym e ∙ (ap (slot w) r ∙ ended)) in
            inr (all d a b (linked.others d b np ∙ (taken.others d b nc ∙ e)))
      ],
    )

  abbrev pub Grows : ℕ → ℕ → ℕ → W → ℕ × ℕ → W → Type 0
  Grows count head p w r w' = (r.0 ≡ head) × (cs : List ℕ) × (length cs ≡ count) × IsGrown p cs w w'

  pub full-IsShort :
      (count : ℕ) (w : W) → IsFull drive block disk bad v vol 2 w → IsShort (suc count) w
  full-IsShort count w full = ([], omega arith, λ d a b e. full d a b e)

  pub allocate_from-Ends :
      (count head p : ℕ) (w : W)
      → 2 ≤ p
      → p < entries v vol
      → slot w p ≡ end_of_chain
      → IsSized drive block disk bad v vol w
      → Ends (E ⊎ IsShort count w) (Grows count head p w) (allocate_from drive v count head p w)
  unfolding allocate_from
  allocate_from-Ends zero head p w low h e s = (
    refl,
    [],
    refl,
    record {
      free = tt;
      distinct = tt;
      others = λ d k n a. refl;
      beside = λ l o. refl;
      sized = s;
      chain = e;
    },
  )
  allocate_from-Ends (suc count) head p w low h e s =
      let some_p : (p == 0) ≡ false = ground (arith, low) in
      take_cluster drive block disk bad v vol (E ⊎ IsShort (suc count) w)
        (Grows (suc count) head p w)
        (λ c.
          if p == 0
          then allocate_from drive v count c c
          else (write_fat_entry drive v p c >> allocate_from drive v count head c))
        w s (λ x. inl x) (λ full. inr (full-IsShort count w full))
        (λ c w2 taken. rw some_p (
          Ends-continue (E ⊎ IsShort (suc count) w)
            (λ u w3. IsEntrySet drive block disk bad v vol p c w2 w3) (Grows (suc count) head p w)
            (write_fat_entry drive v p c w2) _
            (Ends-fails E (λ u w3. IsEntrySet drive block disk bad v vol p c w2 w3)
              (write_fat_entry drive v p c w2) (λ x. inl x)
              (write_fat_entry-Ends drive block disk bad v vol p c w2 h taken.sized))
            (λ u w3 linked. later c w2 w3 taken linked (allocate_from drive v count head c w3) (
              allocate_from-Ends count head c w3 taken.low taken.inside
                (end_there p c w w2 w3 low h e taken linked) linked.sized))))
    where
      later :
          (c : ℕ) (w2 w3 : W)
          → IsTaken drive block disk bad v vol c w w2
          → IsEntrySet drive block disk bad v vol p c w2 w3
          → (r : Outcome (ℕ × ℕ) × W) → Ends (E ⊎ IsShort count w3) (Grows count head c w3) r
          → Ends (E ⊎ IsShort (suc count) w) (Grows (suc count) head p w) r
      later c w2 w3 taken linked (unended, w') k = k
      later c w2 w3 taken linked (fail x, w') (inl k) = inl k
      later c w2 w3 taken linked (fail x, w') (inr k) =
          inr (IsShort-step p c w w2 w3 low h e taken linked count k)
      later c w2 w3 taken linked (done r, w') (same, cs, size, g) =
          (same, c ∷ cs, ap suc size, IsGrown-more p c w w2 w3 low h e taken linked cs w' g)
