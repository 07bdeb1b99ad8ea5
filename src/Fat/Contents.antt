-- ===== src/Fat/Contents.antt =====
-- What a chain of clusters holds (kernel/src/fs/fat.rs, `write_chain` and `read_chain`), on a drive
-- that keeps what is written and a volume whose FAT lies before its data.
use willo_main.Prelude.{
  ℕ, zero, suc, ◌+◌, ◌-◌, ◌≤◌, ◌<◌, ◌≡◌, refl, sym, ap, ◌∙◌, false, Text, [], ◌∷◌, ◌++◌, length,
  take, drop, replicate, leb, length-take, length-append, length-replicate, append-nil, min, arith,
}
use willo_main.Path.{is_empty}
use willo_main.Block.{BlockDevice}
use willo_main.Fat.{FatFs}
use willo_main.Fat.Chain.{cluster_bytes}
use willo_main.Fat.Table.{cluster_of}

take_all : (n : ℕ) (xs : Text) → length xs ≤ n → take n xs ≡ xs
take_all zero [] h = refl
take_all zero (x ∷ xs) h = absurd (omega (arith, h))
take_all (suc n) [] h = refl
take_all (suc n) (x ∷ xs) h = ap (λ r. x ∷ r) (take_all n xs (omega (arith, h)))

pub take_behind :
    (front back : Text) (n : ℕ) → take (length front + n) (front ++ back) ≡ front ++ take n back
take_behind [] back n = let e : 0 + n ≡ n = omega arith in ap (λ k. take k back) e
take_behind (x ∷ front) back n =
    let e : suc (length front) + n ≡ suc (length front + n) = omega arith in
    ap (λ k. take k (x ∷ (front ++ back))) e ∙ ap (λ r. x ∷ r) (take_behind front back n)

pub take_front : (front back : Text) → take (length front) (front ++ back) ≡ front
take_front [] back = refl
take_front (x ∷ front) back = ap (λ r. x ∷ r) (take_front front back)

pub is_empty-drop : (n : ℕ) (xs : Text) → is_empty (drop n xs) ≡ leb (length xs) n
is_empty-drop zero [] = refl
is_empty-drop zero (x ∷ xs) = ground arith
is_empty-drop (suc n) [] = ground arith
is_empty-drop (suc n) (x ∷ xs) =
    let e : leb (suc (length xs)) (suc n) ≡ leb (length xs) n = ground arith in
    is_empty-drop n xs ∙ sym e

pub leb-false : (a b : ℕ) → leb a b ≡ false → b < a
leb-false a b h = ground (arith, h)

replicate_none : (n b : ℕ) → n ≡ 0 → replicate n b ≡ []
replicate_none n b h = ap (λ n. replicate n b) h

module _ {W : Type 0} (drive : BlockDevice W) (v : FatFs) where
  pub cluster_of-short :
      (bytes : Text)
      → length bytes ≤ cluster_bytes v
      → cluster_of drive v bytes ≡ bytes ++ replicate (cluster_bytes v - length bytes) 0
  cluster_of-short bytes h =
      ap (λ t. t ++ replicate (cluster_bytes v - length bytes) 0)
        (take_all (cluster_bytes v) bytes h)

  pub cluster_of-full :
      (bytes : Text)
      → cluster_bytes v ≤ length bytes
      → cluster_of drive v bytes ≡ take (cluster_bytes v) bytes
  cluster_of-full bytes h =
      ap (λ r. take (cluster_bytes v) bytes ++ r)
        (replicate_none _ 0 (none_left (cluster_bytes v) (length bytes) h))
      ∙ append-nil _
    where
      none_left : (a b : ℕ) → a ≤ b → a - b ≡ 0
      none_left a b h = omega (arith, h)

  pub length-cluster_of : (bytes : Text) → length (cluster_of drive v bytes) ≡ cluster_bytes v
  length-cluster_of bytes =
      length-append (take (cluster_bytes v) bytes) _
      ∙ filled (cluster_bytes v) (length bytes) _ _ (length-take (cluster_bytes v) bytes)
          (length-replicate (cluster_bytes v - length bytes) 0)
    where
      filled : (a b x y : ℕ) → x ≡ min a b → y ≡ a - b → x + y ≡ a
      filled a b x y h k = omega (arith, h, k)
