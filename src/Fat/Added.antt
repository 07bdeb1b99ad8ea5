-- ===== src/Fat/Added.antt =====
-- `add_dir_entry` (kernel/src/fs/fat.rs) in a directory that has a free slot, on a drive that keeps what
-- is written.
use willo_main.Prelude.{
  ℕ, zero, suc, ◌+◌, ◌≤◌, ◌<◌, ◌≡◌, ◌≢◌, inl, inr, refl, sym, ap, ◌∙◌, subst, Bool, true, false,
  Option, none, some, List, [], ◌∷◌, ◌++◌, Text, if◌then◌else◌, length, All, All-map, Option-cases,
  arith,
}
use willo_main.Block.{BlockDevice, IsDisk, FailsOnlyIf}
use willo_main.Fat.{FatFs}
use willo_main.Fat.Io.{Io, ret, ◌>>=◌}
use willo_main.Fat.Chain.{next_cluster, cluster_to_lba}
use willo_main.Fat.Directory.{fill_slot, is_chain_end, grow, add_slot}
use willo_main.Fat.Sectors.{Ends, Ends-continue, Ends-weaken, Same, IsOutside}
use willo_main.Fat.Linked.{next_cluster-Ends}
use willo_main.Fat.Written.{AreApart, Avoids, Avoids-apart}
use willo_main.Fat.Volume.{IsVolume, AreApart_distinct}
use willo_main.Fat.Slots.{IsSized, entry}
use willo_main.Fat.Search.{entry-Same}
use willo_main.Fat.Grown.{AreDistinct, IsChain}
use willo_main.Fat.Freed.{IsInside}
use willo_main.Fat.Listing.{fill, fill-append_some, fill-append_none, fill-append_never}
use willo_main.Fat.Filled.{slots_run, slots, slots_run-kept, slots-kept, IsTried, fill_slot-Ends}

module _ {W E : Type 0} (drive : BlockDevice W) (block : W → ℕ → Text) (disk : IsDisk drive block)
    (bad : FailsOnlyIf E drive block) (v : FatFs) (vol : IsVolume v) where
  abbrev Sized : W → Type 0
  Sized w = IsSized drive block disk bad v vol w

  -- The chain's slots drive block disk bad v vol with the first free one written over; no block outside of the chain's clusters
  -- has changed.
  abbrev pub IsAdded : List ℕ → List Text → W → W → Type 0
  IsAdded cs new w w' =
      (slots drive block disk bad v vol w' cs ≡ new)
      × ((l : ℕ) → Avoids v l cs → block w' l ≡ block w l)
      × Sized w'

  abbrev Inside : ℕ → Type 0
  Inside c = IsInside drive block disk bad v vol c

  abbrev run : W → ℕ → List Text
  run w c = slots_run drive block disk bad v vol w v.sectors_per_cluster (cluster_to_lba v c)

  apart_from :
      (p : ℕ) (cs : List ℕ) → Inside p → All Inside cs → All (λ d. d ≢ p) cs → All (AreApart v p) cs
  apart_from p [] i is ns = tt
  apart_from p (c ∷ cs) i (j, is) (n, ns) =
      (AreApart_distinct v vol p c i.0 i.1 j.0 j.1 (λ e. n (sym e)), apart_from p cs i is ns)

  -- A block of another cluster.
  pub IsOutside-of :
      (p c l : ℕ)
      → AreApart v p c
      → cluster_to_lba v c ≤ l
      → l < cluster_to_lba v c + v.sectors_per_cluster
      → IsOutside l (cluster_to_lba v p) v.sectors_per_cluster
  IsOutside-of p c l (inl h) a b = inr (omega (arith, h, a))
  IsOutside-of p c l (inr h) a b = inl (omega (arith, h, b))

  some_same : (a b : List Text) (r : Option (List Text)) → r ≡ some a → r ≡ some b → a ≡ b
  some_same a b r h k = let e : some a ≡ some b = sym h ∙ k in cc

  IsAdded-here :
      (p : ℕ) (cs : List ℕ) (x : Text) (new : List Text) (w w1 : W)
      → All Inside (p ∷ cs)
      → AreDistinct (p ∷ cs)
      → fill x (slots drive block disk bad v vol w (p ∷ cs)) ≡ some new
      → IsTried drive block disk bad v vol v.sectors_per_cluster (cluster_to_lba v p) x w true w1
      → IsAdded (p ∷ cs) new w w1
  IsAdded-here p cs x new w w1 (i, is) (d, ds) f (h, k, sized) = (
    ap (λ t. run w1 p ++ t)
          (slots-kept drive block disk bad v vol w w1 cs (
            All-map (λ c ap_c l a b. k l (IsOutside-of p c l ap_c a b)) cs
              (apart_from p cs i is d)))
        ∙ some_same (run w1 p ++ slots drive block disk bad v vol w cs) new
            (fill x (slots drive block disk bad v vol w (p ∷ cs)))
            (fill-append_some x (run w p) (run w1 p) (slots drive block disk bad v vol w cs) h) f,
    λ l o. k l o.0,
    sized,
  )

  -- The rest of the chain has the free slot.
  IsAdded-later :
      (p q : ℕ) (cs : List ℕ) (new b : List Text) (w w2 w3 : W)
      → All Inside (p ∷ q ∷ cs)
      → AreDistinct (p ∷ q ∷ cs)
      → Same drive block disk bad w w2
      → run w p ++ b ≡ new
      → IsAdded (q ∷ cs) b w2 w3
      → IsAdded (p ∷ q ∷ cs) new w w3
  IsAdded-later p q cs new b w w2 w3 (i, is) (d, ds) s e (h, k, sized) = (
    ap (λ t. t ++ slots drive block disk bad v vol w3 (q ∷ cs))
          (slots_run-kept drive block disk bad v vol w w3 v.sectors_per_cluster (cluster_to_lba v p)
            (λ l a c. k l (Avoids-apart v p l (q ∷ cs) (apart_from p (q ∷ cs) i is d) a c) ∙ s l))
        ∙ (ap (λ t. run w p ++ t) h ∙ e),
    λ l o. k l o.1 ∙ s l,
    sized,
  )

  -- One round: the slot is written in this cluster, or the search goes on behind it.
  abbrev next_round : FatFs → ℕ → ℕ → Text → Io W (Unit {0})
  next_round v fuel p x = do
    next ← next_cluster drive v p
    following ← (if is_chain_end next then grow drive v p else ret next)
    add_slot drive v fuel following x

  try_cluster :
      (cs : List ℕ) (p fuel : ℕ) (x : Text) (new : List Text) (w : W)
      → length x ≡ 32
      → All Inside (p ∷ cs)
      → AreDistinct (p ∷ cs)
      → Sized w
      → fill x (slots drive block disk bad v vol w (p ∷ cs)) ≡ some new
      → ((w1 : W)
          → IsTried drive block disk bad v vol v.sectors_per_cluster
              (cluster_to_lba v p)
              x
              w
              false
              w1
          → Ends E (λ u w'. IsAdded (p ∷ cs) new w w') (next_round v fuel p x w1))
      → Ends E (λ u w'. IsAdded (p ∷ cs) new w w') (add_slot drive v (suc fuel) p x w)
  unfolding add_slot
  try_cluster cs p fuel x new w size i d s f go =
      Ends-continue E
        (IsTried drive block disk bad v vol v.sectors_per_cluster (cluster_to_lba v p) x w)
        (λ u w'. IsAdded (p ∷ cs) new w w')
        (fill_slot drive v.sectors_per_cluster (cluster_to_lba v p) x w)
        (λ written. if written then ret tt else next_round v fuel p x)
        (fill_slot-Ends drive block disk bad v vol v.sectors_per_cluster (cluster_to_lba v p) x w
          size s)
        after
    where
      after :
          (b : Bool) (w1 : W)
          → IsTried drive block disk bad v vol v.sectors_per_cluster (cluster_to_lba v p) x w b w1
          → Ends E
              (λ u w'. IsAdded (p ∷ cs) new w w')
              ((if b then ret tt else next_round v fuel p x) w1)
      after true w1 t = IsAdded-here p cs x new w w1 i d f t
      after false w1 t = go w1 t

  -- The entry of a cluster leads to the next one, and the directory does not grow.
  to_next :
      (p q fuel : ℕ) (x : Text) (w w1 : W) (P : W → Type 0)
      → Inside q
      → entry drive block disk bad v vol w p ≡ q
      → Same drive block disk bad w w1
      → ((w2 : W)
          → Same drive block disk bad w w2
          → Ends E (λ u w'. P w') (add_slot drive v fuel q x w2))
      → Ends E (λ u w'. P w') (next_round v fuel p x w1)
  to_next p q fuel x w w1 P (low, high) h s go =
      Ends-continue E
        (λ next w2.
          (next ≡ entry drive block disk bad v vol w1 p) × Same drive block disk bad w1 w2)
        (λ u w'. P w') (next_cluster drive v p w1) _ (next_cluster-Ends drive block disk bad v p w1)
        (λ next w2 one.
          let to_q : q ≡ next =
            sym (one.0 ∙ (entry-Same drive block disk bad v vol w w1 p s ∙ h)) in
          let middle : is_chain_end q ≡ false = ground (arith, low, high, vol.few_entries) in
          subst
            (λ n.
              Ends E (λ u w'. P w')
                (((if is_chain_end n then grow drive v p else ret n) >>= λ following.
                    add_slot drive v fuel following x)
                  w2))
            to_q (rw middle (go w2 (λ l. one.1 l ∙ s l))))

  pub IsChain-Same :
      (w w2 : W) (q : ℕ) (cs : List ℕ)
      → Same drive block disk bad w w2
      → IsChain drive block disk bad v vol w q cs
      → IsChain drive block disk bad v vol w2 q cs
  IsChain-Same w w2 q [] s h = entry-Same drive block disk bad v vol w w2 q s ∙ h
  IsChain-Same w w2 q (c ∷ cs) s (h, hs) =
      (entry-Same drive block disk bad v vol w w2 q s ∙ h, IsChain-Same w w2 c cs s hs)

  pub add_slot-Ends :
      (cs : List ℕ) (p fuel : ℕ) (x : Text) (new : List Text) (w : W)
      → length x ≡ 32
      → All (IsInside drive block disk bad v vol) (p ∷ cs)
      → AreDistinct (p ∷ cs)
      → IsChain drive block disk bad v vol w p cs
      → Sized w
      → fill x (slots drive block disk bad v vol w (p ∷ cs)) ≡ some new
      → length cs < fuel
      → Ends E (λ u w'. IsAdded (p ∷ cs) new w w') (add_slot drive v fuel p x w)
  add_slot-Ends cs p zero x new w size i d h s f k = absurd (omega (arith, k))
  add_slot-Ends [] p (suc fuel) x new w size i d h s f k =
      try_cluster [] p fuel x new w size i d s f (λ w1 t.
        let e : none ≡ some new = sym (fill-append_never x (run w p) [] t.0 refl) ∙ f in
        absurd (cc))
  add_slot-Ends (q ∷ cs) p (suc fuel) x new w size i d (h, hs) s f k =
      try_cluster (q ∷ cs) p fuel x new w size i d s f (λ w1 t.
        elim (Option-cases (fill x (slots drive block disk bad v vol w (q ∷ cs)))) [
          | inl e ↦
              let g : none ≡ some new =
                sym (
                  fill-append_never x (run w p) (slots drive block disk bad v vol w (q ∷ cs)) t.0 e)
                ∙ f in
              absurd (cc)
          | inr (b, e) ↦
              to_next p q fuel x w w1 (IsAdded (p ∷ q ∷ cs) new w) i.1.0 h t.1 (λ w2 same.
                Ends-weaken E (add_slot drive v fuel q x w2)
                  (add_slot-Ends cs q fuel x b w2 size i.1 d.1 (IsChain-Same w w2 q cs same hs)
                    (λ l. ap length (same l) ∙ s l)
                    (ap (fill x) (
                        slots-kept drive block disk bad v vol w w2 (q ∷ cs)
                          (All-map (λ c j l a z. same l) (q ∷ cs) i.1))
                      ∙ e)
                    (omega (arith, k)))
                  (λ u w3 g.
                    IsAdded-later p q cs new b w w2 w3 i d same
                      (some_same _ new (fill x (slots drive block disk bad v vol w (p ∷ q ∷ cs)))
                        (fill-append_none x (run w p) (slots drive block disk bad v vol w (q ∷ cs))
                          b t.0 e)
                        f)
                      g))
        ])
