-- ===== src/Ata/Words.antt =====
-- The bytes and words of a sector (kernel/src/ata.rs, the chunks of `write_block`).
use willo_main.Prelude.{
  ℕ, zero, suc, ◌+◌, ◌*◌, ◌/◌, ◌%◌, ◌<◌, ◌≤◌, ◌≡◌, ◌≢◌, refl, true, false, List, [], ◌∷◌, Text, ltb,
  ◌==◌, if◌then◌else◌, length, take, arith, All,
}
use willo_main.Ata.Protocol.{bytes_of}

-- The words of pairs of bytes.
abbrev pub words_of : Text → List ℕ
words_of [] = []
words_of (lo ∷ []) = []
words_of (lo ∷ hi ∷ rest) = (lo + hi * 256) ∷ words_of rest

abbrev pub IsByte : ℕ → Type 0
IsByte b = b < 256

abbrev pub stored : ℕ → List ℕ → (ℕ → List ℕ) → ℕ → List ℕ
stored lba words blocks l = if l == lba then words else blocks l

pub length-words_of : (k : ℕ) (bytes : Text) → length bytes ≡ 2 * k → length (words_of bytes) ≡ k
length-words_of k [] h = omega (arith, h)
length-words_of k (lo ∷ []) h = omega (arith, h)
length-words_of zero (lo ∷ hi ∷ rest) h = omega (arith, h)
length-words_of (suc k) (lo ∷ hi ∷ rest) h =
    omega (arith, length-words_of k rest (omega (arith, h)))

pub bytes_of-words_of :
    (k : ℕ) (bytes : Text)
    → length bytes ≡ 2 * k
    → All IsByte bytes
    → bytes_of (words_of bytes) ≡ bytes
bytes_of-words_of k [] h b = refl
bytes_of-words_of k (lo ∷ []) h b = absurd (omega (arith, h))
bytes_of-words_of zero (lo ∷ hi ∷ rest) h b = absurd (omega (arith, h))
bytes_of-words_of (suc k) (lo ∷ hi ∷ rest) h (blo, (bhi, brest)) =
    let e1 : (lo + hi * 256) % 256 ≡ lo = omega (arith, blo, bhi) in
    let e2 : ((lo + hi * 256) / 256) % 256 ≡ hi = omega (arith, blo, bhi) in
    rw (e1, e2, bytes_of-words_of k rest (omega (arith, h)) brest) refl

pub All-take : (P : ℕ → Type 0) (n : ℕ) (bytes : Text) → All P bytes → All P (take n bytes)
All-take P zero bytes h = tt
All-take P (suc n) [] h = tt
All-take P (suc n) (b ∷ bytes) h = (h.0, All-take P n bytes h.1)

pub is_255 : (n : ℕ) → (n == 255) ≡ true → n ≡ 255
is_255 n h = ground (arith, h)

pub not_255 : (n : ℕ) → (n == 255) ≡ false → n ≢ 255
not_255 n h = ground (arith, h)

pub no_words : (bytes : Text) → length (words_of bytes) ≡ 0 → words_of bytes ≡ []
no_words [] h = refl
no_words (lo ∷ []) h = refl
no_words (lo ∷ hi ∷ rest) h = absurd (omega (arith, h))

pub ltb-false : (a b : ℕ) → ltb a b ≡ false → b ≤ a
ltb-false a b h = ground (arith, h)

pub stored_same :
    (lba : ℕ) (words : List ℕ) (blocks : ℕ → List ℕ) → stored lba words blocks lba ≡ words
stored_same lba words blocks = ground arith

pub stored_other :
    (lba l : ℕ) (words : List ℕ) (blocks : ℕ → List ℕ)
    → l ≢ lba
    → stored lba words blocks l ≡ blocks l
stored_other lba l words blocks h = ground (arith, h)
