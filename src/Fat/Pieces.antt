-- ===== src/Fat/Pieces.antt =====
-- The slots of a sector (kernel/src/fs/fat.rs, `add_dir_entry`): what a slot that is written changes of
-- them.
use willo_main.Prelude.{
  ℕ, zero, suc, ◌+◌, ◌*◌, ◌≤◌, ◌≡◌, inl, inr, refl, sym, ap, ◌∙◌, subst, true, false, ◌||◌, Option,
  none, some, [], ◌∷◌, ◌++◌, Text, ◌==◌, length, take, drop, Bool-cases, drop-append, take-append,
  arith,
}
use willo_main.Fat.{byte}
use willo_main.Fat.Chain.{chunks}
use willo_main.Fat.Table.{splice}
use willo_main.Fat.Directory.{free_slot}
use willo_main.Fat.Listing.{is_free, fill, fill_free, fill_later, fill_never}

none_left : (n : ℕ) → drop {A = ℕ} n [] ≡ []
none_left zero = refl
none_left (suc n) = refl

drop-drop : (n m : ℕ) (xs : Text) → drop n (drop m xs) ≡ drop (m + n) xs
drop-drop n zero xs = let e : n ≡ 0 + n = omega arith in ap (λ k. drop k xs) e
drop-drop n (suc m) [] =
    let e : suc (m + n) ≡ suc m + n = omega arith in none_left n ∙ ap (λ k. drop {A = ℕ} k []) e
drop-drop n (suc m) (x ∷ xs) =
    let e : suc (m + n) ≡ suc m + n = omega arith in drop-drop n m xs ∙ ap (λ k. drop k (x ∷ xs)) e

first_byte : (off : ℕ) (buf : Text) → byte (take 32 (drop off buf)) 0 ≡ byte buf off
first_byte zero [] = refl
first_byte zero (b ∷ buf) = refl
first_byte (suc off) [] = refl
first_byte (suc off) (b ∷ buf) = first_byte off buf

take_front_of :
    (n o : ℕ) (buf t : Text) → n ≤ o → o ≤ length buf → take n (take o buf ++ t) ≡ take n buf
take_front_of zero o buf t h k = refl
take_front_of (suc n) zero buf t h k = absurd (omega (arith, h))
take_front_of (suc n) (suc o) [] t h k = absurd (omega (arith, k))
take_front_of (suc n) (suc o) (b ∷ buf) t h k =
    ap (λ r. b ∷ r) (take_front_of n o buf t (omega (arith, h)) (omega (arith, k)))

-- Nothing before the slot changes.
slice_front :
    (off n o : ℕ) (buf t : Text)
    → off + n ≤ o
    → o ≤ length buf
    → take n (drop off (take o buf ++ t)) ≡ take n (drop off buf)
slice_front zero n o buf t h k = take_front_of n o buf t (omega (arith, h)) k
slice_front (suc off) n zero buf t h k = absurd (omega (arith, h))
slice_front (suc off) n (suc o) [] t h k = absurd (omega (arith, k))
slice_front (suc off) n (suc o) (b ∷ buf) t h k =
    slice_front off n o buf t (omega (arith, h)) (omega (arith, k))

drop_front : (off : ℕ) (buf t : Text) → off ≤ length buf → drop off (take off buf ++ t) ≡ t
drop_front zero buf t h = refl
drop_front (suc off) [] t h = absurd (omega (arith, h))
drop_front (suc off) (b ∷ buf) t h = drop_front off buf t (omega (arith, h))

-- What `free_slot` finds among the slots from `off` on.
abbrev pub IsFreeAt : ℕ → ℕ → Text → Text → Option ℕ → Type 0
IsFreeAt count off buf x none = fill x (chunks count (drop off buf)) ≡ none
IsFreeAt count off buf x (some o) =
    (off ≤ o)
    × (o + 32 ≤ length buf)
    × (fill x (chunks count (drop off buf)) ≡ some (chunks count (drop off (splice buf o x))))

here :
    (count off : ℕ) (buf x : Text)
    → length x ≡ 32
    → off + 32 ≤ length buf
    → is_free (take 32 (drop off buf)) ≡ true
    → IsFreeAt (suc count) off buf x (some off)
unfolding chunks
here count off buf x size h e = (
  omega arith,
  h,
  fill_free x (take 32 (drop off buf)) (chunks count (drop 32 (drop off buf))) e
      ∙ ap some (sym (ap (chunks (suc count)) at ∙ split)),
)
  where
    at : drop off (splice buf off x) ≡ x ++ drop 32 (drop off buf)
    at = drop_front off buf _ (omega (arith, h)) ∙ ap (λ n. x ++ drop n (drop off buf)) size

    split :
        chunks (suc count) (x ++ drop 32 (drop off buf)) ≡ x ∷ chunks count (drop 32 (drop off buf))
    split =
        ap (λ t. t ∷ chunks count (drop 32 (x ++ drop 32 (drop off buf))))
          (subst (λ n. take n (x ++ drop 32 (drop off buf)) ≡ x) size
            (take-append x (drop 32 (drop off buf))))
        ∙ ap (λ t. x ∷ chunks count t)
            (subst (λ n. drop n (x ++ drop 32 (drop off buf)) ≡ drop 32 (drop off buf)) size
              (drop-append x (drop 32 (drop off buf))))

later :
    (count off : ℕ) (buf x : Text) (r : Option ℕ)
    → is_free (take 32 (drop off buf)) ≡ false
    → IsFreeAt count (off + 32) buf x r
    → IsFreeAt (suc count) off buf x r
unfolding chunks
later count off buf x none e h =
    fill_never x (take 32 (drop off buf)) _ e
      (ap (λ t. fill x (chunks count t)) (drop-drop 32 off buf) ∙ h)
later count off buf x (some o) e (low, high, h) = (
  omega (arith, low),
  high,
  fill_later x (take 32 (drop off buf)) _ _ e
        (ap (λ t. fill x (chunks count t)) (drop-drop 32 off buf) ∙ h)
      ∙ ap some (
          ap (λ t. t ∷ chunks count (drop (off + 32) (splice buf o x)))
            (sym (slice_front off 32 o buf _ low (omega (arith, high))))
          ∙ ap (λ t. take 32 (drop off (splice buf o x)) ∷ chunks count t)
              (sym (drop-drop 32 off (splice buf o x)))),
)

pub free_slot_lem :
    (count off : ℕ) (buf x : Text)
    → length x ≡ 32
    → off + count * 32 ≡ length buf
    → IsFreeAt count off buf x (free_slot count off buf)
unfolding free_slot chunks
free_slot_lem zero off buf x size h = refl
free_slot_lem (suc count) off buf x size h =
    let same : is_free (take 32 (drop off buf)) ≡ (byte buf off == 0 || byte buf off == 0xE5) =
      ap (λ b. b == 0 || b == 0xE5) (first_byte off buf) in
    elim (Bool-cases (byte buf off == 0 || byte buf off == 0xE5)) [
      | inl e ↦ rw e (here count off buf x size (omega (arith, h)) (same ∙ e))
      | inr e ↦ rw e (
          later count off buf x (free_slot count (off + 32) buf) (same ∙ e)
            (free_slot_lem count (off + 32) buf x size (omega (arith, h))))
    ]
