-- ===== src/Fat/Words.antt =====
-- Words that are written into a sector and read again (kernel/src/fs/fat.rs).
use willo_main.Prelude.{
  ℕ, zero, suc, ◌+◌, ◌*◌, ◌/◌, ◌%◌, ◌^◌, ◌≤◌, ◌<◌, ◌≡◌, ◌⊎◌, inl, inr, refl, ap, ◌∙◌, [], ◌∷◌, ◌++◌,
  Text, length, take, drop, get_or, length-append, length-take, length-drop, arith,
}
use willo_main.Fat.{le32, word32, cluster_mod}
use willo_main.Fat.Table.{splice, set_entry}

get_or-front : (xs ys : Text) (i : ℕ) → i < length xs → get_or (xs ++ ys) i 0 ≡ get_or xs i 0
get_or-front [] ys i h = absurd (omega arith)
get_or-front (x ∷ xs) ys zero h = refl
get_or-front (x ∷ xs) ys (suc i) h = get_or-front xs ys i (omega arith)

get_or-nil : (xs : Text) (j : ℕ) → length xs ≤ j → get_or (xs ++ []) j 0 ≡ 0
get_or-nil [] j h = refl
get_or-nil (x ∷ xs) zero h = absurd (omega arith)
get_or-nil (x ∷ xs) (suc j) h = get_or-nil xs j (omega arith)

get_or-behind :
    (xs buf : Text) (j : ℕ)
    → length xs ≤ j
    → get_or (xs ++ drop (length xs) buf) j 0 ≡ get_or buf j 0
get_or-behind [] buf j h = refl
get_or-behind (x ∷ xs) buf zero h = absurd (omega arith)
get_or-behind (x ∷ xs) [] (suc j) h = get_or-nil xs j (omega arith)
get_or-behind (x ∷ xs) (b ∷ buf) (suc j) h = get_or-behind xs buf j (omega arith)

get_or-splice :
    (buf bytes : Text) (at i j : ℕ)
    → at ≤ length buf
    → i < length bytes
    → j ≡ at + i
    → get_or (splice buf at bytes) j 0 ≡ get_or bytes i 0
get_or-splice buf bytes zero i j h k e =
    let e1 : j ≡ i = omega (arith, e) in
    ap (λ n. get_or (bytes ++ drop (length bytes) buf) n 0) e1
    ∙ get_or-front bytes (drop (length bytes) buf) i k
get_or-splice [] bytes (suc at) i j h k e = absurd (omega arith)
get_or-splice (b ∷ buf) bytes (suc at) i zero h k e = absurd (omega (arith, e))
get_or-splice (b ∷ buf) bytes (suc at) i (suc j) h k e =
    get_or-splice buf bytes at i j (omega arith) k (omega (arith, e))

get_or-splice_other :
    (buf bytes : Text) (at j : ℕ)
    → at ≤ length buf
    → (j < at) ⊎ (at + length bytes ≤ j)
    → get_or (splice buf at bytes) j 0 ≡ get_or buf j 0
get_or-splice_other buf bytes zero j h (inl k) = absurd (omega arith)
get_or-splice_other buf bytes zero j h (inr k) = get_or-behind bytes buf j (omega (arith, k))
get_or-splice_other [] bytes (suc at) j h k = absurd (omega arith)
get_or-splice_other (b ∷ buf) bytes (suc at) zero h k = refl
get_or-splice_other (b ∷ buf) bytes (suc at) (suc j) h (inl k) =
    get_or-splice_other buf bytes at j (omega arith) (inl (omega arith))
get_or-splice_other (b ∷ buf) bytes (suc at) (suc j) h (inr k) =
    get_or-splice_other buf bytes at j (omega arith) (inr (omega arith))

pub word32-splice :
    (buf : Text) (at x : ℕ) → at ≤ length buf → x < 2 ^ 32 → word32 (splice buf at (le32 x)) at ≡ x
word32-splice buf at x h k = omega (
  arith,
  get_or-splice buf (le32 x) at 0 at h (omega arith) (omega arith),
  get_or-splice buf (le32 x) at 1 (at + 1) h (omega arith) refl,
  get_or-splice buf (le32 x) at 2 (at + 2) h (omega arith) refl,
  get_or-splice buf (le32 x) at 3 (at + 3) h (omega arith) refl,
)

pub word32-splice_other :
    (buf : Text) (at x j : ℕ)
    → at ≤ length buf
    → (j + 4 ≤ at) ⊎ (at + 4 ≤ j)
    → word32 (splice buf at (le32 x)) j ≡ word32 buf j
word32-splice_other buf at x j h (inl k) = omega (
  arith,
  get_or-splice_other buf (le32 x) at j h (inl (omega arith)),
  get_or-splice_other buf (le32 x) at (j + 1) h (inl (omega arith)),
  get_or-splice_other buf (le32 x) at (j + 2) h (inl (omega arith)),
  get_or-splice_other buf (le32 x) at (j + 3) h (inl (omega arith)),
)
word32-splice_other buf at x j h (inr k) = omega (
  arith,
  get_or-splice_other buf (le32 x) at j h (inr (omega arith)),
  get_or-splice_other buf (le32 x) at (j + 1) h (inr (omega arith)),
  get_or-splice_other buf (le32 x) at (j + 2) h (inr (omega arith)),
  get_or-splice_other buf (le32 x) at (j + 3) h (inr (omega arith)),
)

-- The low 28 bits are the new value, the four high bits stay.
pub word32-set_entry :
    (buf : Text) (at value : ℕ)
    → at ≤ length buf
    → word32 buf at < 2 ^ 32
    → (word32 (set_entry buf at value) at % cluster_mod ≡ value % cluster_mod)
      × (word32 (set_entry buf at value) at / cluster_mod ≡ word32 buf at / cluster_mod)
unfolding set_entry
word32-set_entry buf at value h k =
    let e =
      word32-splice buf at (value % cluster_mod + word32 buf at / cluster_mod * cluster_mod) h
        (omega arith) in
    (omega (arith, e), omega (arith, e))

pub word32-set_entry_other :
    (buf : Text) (at value j : ℕ)
    → at ≤ length buf
    → (j + 4 ≤ at) ⊎ (at + 4 ≤ j)
    → word32 (set_entry buf at value) j ≡ word32 buf j
unfolding set_entry
word32-set_entry_other buf at value j h k = word32-splice_other buf at _ j h k

-- The low bits are the new value, whatever the word was.
pub word32-set_entry_low :
    (buf : Text) (at value : ℕ)
    → at ≤ length buf
    → word32 (set_entry buf at value) at % cluster_mod ≡ value % cluster_mod
unfolding set_entry
word32-set_entry_low buf at value h =
    let x : ℕ = value % cluster_mod + word32 buf at / cluster_mod * cluster_mod in
    let low : x % cluster_mod ≡ value % cluster_mod = omega arith in
    omega (
      arith,
      low,
      get_or-splice buf (le32 x) at 0 at h (omega arith) (omega arith),
      get_or-splice buf (le32 x) at 1 (at + 1) h (omega arith) refl,
      get_or-splice buf (le32 x) at 2 (at + 2) h (omega arith) refl,
      get_or-splice buf (le32 x) at 3 (at + 3) h (omega arith) refl,
    )

pub length-splice :
    (buf bytes : Text) (at : ℕ)
    → at + length bytes ≤ length buf
    → length (splice buf at bytes) ≡ length buf
length-splice buf bytes at h = omega (
  arith,
  length-append (take at buf) (bytes ++ drop (length bytes) (drop at buf)),
  length-append bytes (drop (length bytes) (drop at buf)),
  length-take at buf,
  length-drop (length bytes) (drop at buf),
  length-drop at buf,
)

pub length-set_entry :
    (buf : Text) (at value : ℕ) → at + 4 ≤ length buf → length (set_entry buf at value) ≡ length buf
unfolding set_entry
length-set_entry buf at value h = length-splice buf (le32 _) at h
