-- ===== src/Vfs/Choice.antt =====
-- The choice that the loop of `resolve` makes among the mounts (kernel/src/fs/mod.rs).
use willo_main.Prelude.{
  ℕ, suc, ◌≡◌, refl, ◌∙◌, ap, sym, ◌⊎◌, inl, inr, true, List, [], ◌∷◌, Text, arith, length, Option,
  none, some, ◌≤◌,
}
use willo_main.Path.{is_empty, starts_with_slash}
use willo_main.Vfs.{Mount, covers, better, best_mount}
use willo_main.Vfs.Under.{IsUnder, covers_iff}

pub length_of_empty : (s : Text) → is_empty s ≡ true → length s ≡ 0
length_of_empty [] h = refl
length_of_empty (x ∷ s) h = cc

pub serves-IsUnder :
    (abs prefix : Text)
    → starts_with_slash abs ≡ true
    → (is_empty prefix ≡ true) ⊎ (covers abs prefix ≡ true)
    → IsUnder abs prefix
serves-IsUnder abs prefix a (inr c) = (covers_iff abs prefix).0 c
serves-IsUnder abs [] a (inl e) = (abs, refl, inr a)
serves-IsUnder abs (x ∷ p) a (inl e) = cc

module _ {W : Type 0} where
  -- A mount of the table.
  abbrev pub Member : Mount W → List (Mount W) → Type 0
  Member m [] = ⊥
  Member m (x ∷ ms) = (m ≡ x) ⊎ Member m ms

  -- How far a choice reaches: nothing at 0, a mount one above its prefix's length.
  abbrev pub reach : Option (Mount W) → ℕ
  reach none = 0
  reach (some m) = suc (length m.prefix)

  pub better-reach :
      (abs : Text) (best : Option (Mount W)) (m : Mount W)
      → (reach best ≤ reach (better abs best m))
        × (covers abs m.prefix ≡ true → suc (length m.prefix) ≤ reach (better abs best m))
  unfolding better
  better-reach abs none m =
      (ground (arith, length_of_empty m.prefix), ground (arith, length_of_empty m.prefix))
  better-reach abs (some b) m =
      (ground (arith, length_of_empty m.prefix), ground (arith, length_of_empty m.prefix))

  pub better-choice :
      (abs : Text) (best : Option (Mount W)) (m : Mount W)
      → (better abs best m ≡ best)
        ⊎ ((better abs best m ≡ some m)
            × ((is_empty m.prefix ≡ true) ⊎ (covers abs m.prefix ≡ true)))
  unfolding better
  better-choice abs none m = ground arith
  better-choice abs (some b) m = ground arith

  pub best_mount-reach :
      (abs : Text) (best : Option (Mount W)) (ms : List (Mount W))
      → (reach best ≤ reach (best_mount abs best ms))
        × ((m : Mount W)
            → Member m ms
            → covers abs m.prefix ≡ true
            → suc (length m.prefix) ≤ reach (best_mount abs best ms))
  unfolding best_mount
  best_mount-reach abs best [] = (omega arith, λ m h. absurd h)
  best_mount-reach abs best (x ∷ ms) =
      let (low, each) = best_mount-reach abs (better abs best x) ms in
      let (keep, reached) = better-reach abs best x in
      (
        omega arith,
        λ m h c. elim h [
          | inl e ↦ omega (
            arith,
            reached (sym (ap (λ (t : Mount W). covers abs t.prefix) e) ∙ c),
            ap (λ (t : Mount W). length t.prefix) e,
          )
          | inr later ↦ each m later c
        ],
      )

  pub best_mount-choice :
      (abs : Text) (best : Option (Mount W)) (ms : List (Mount W))
      → (best_mount abs best ms ≡ best)
        ⊎ ((m : Mount W) × Member m ms
            × (best_mount abs best ms ≡ some m)
            × ((is_empty m.prefix ≡ true) ⊎ (covers abs m.prefix ≡ true)))
  unfolding best_mount
  best_mount-choice abs best [] = inl refl
  best_mount-choice abs best (x ∷ ms) = elim (best_mount-choice abs (better abs best x) ms) [
    | inl e ↦ elim (better-choice abs best x) [
      | inl kept ↦ inl (e ∙ kept)
      | inr (taken, s) ↦ inr (x, inl refl, e ∙ taken, s)
    ]
    | inr (m, later, e, s) ↦ inr (m, inr later, e, s)
  ]
