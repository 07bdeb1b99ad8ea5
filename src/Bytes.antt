-- ===== src/Bytes.antt =====
-- The order of byte strings, by which a `BTreeMap<String, _>` keeps its keys and `sort` sorts names
-- (kernel/src/fs/tmp.rs, kernel/src/fs/ram.rs, kernel/src/shell.rs), and bytes of words.
use Prim.Native.Nat.{compare, Ordering}
use willo_main.Prelude.{
  ℕ, zero, suc, ◌+◌, ◌-◌, ◌*◌, ◌/◌, ◌%◌, ltb, if◌then◌else◌, ◌≡◌, refl, [], ◌∷◌, Text, arith,
}

pub data Order : Type 0 where
  before equal after : Order

unfoldable pub compare_text : Text → Text → Order
compare_text [] [] = equal
compare_text [] (y ∷ t) = before
compare_text (x ∷ s) [] = after
compare_text (x ∷ s) (y ∷ t) = elim (compare x y) [
  | Ordering.lt ↦ before
  | Ordering.eq ↦ compare_text s t
  | Ordering.gt ↦ after
]

pub compare_text_refl : (s : Text) → compare_text s s ≡ equal
unfolding compare_text
compare_text_refl [] = refl
compare_text_refl (x ∷ s) = ground (arith, compare_text_refl s)

pub compare_text-equal : (s t : Text) → compare_text s t ≡ equal → s ≡ t
unfolding compare_text
compare_text-equal [] [] h = refl
compare_text-equal [] (y ∷ t) h = cc
compare_text-equal (x ∷ s) [] h = cc
compare_text-equal (x ∷ s) (y ∷ t) h = ground (arith, compare_text-equal s t)

-- Decimal digits, as `format!("{}")` writes a number, last digit first put in front of `rest`. The
-- fuel is the number itself plus one: each digit makes the number smaller.
unfoldable pub digits_onto : ℕ → ℕ → Text → Text
digits_onto zero n rest = rest
digits_onto (suc f) n rest =
    let more = digits_onto f (n / 10) ((48 + n % 10) ∷ rest) in
    if ltb n 10 then (48 + n) ∷ rest else more

unfoldable pub decimal : ℕ → Text
unfolding digits_onto
decimal n = digits_onto (n + 1) n []

-- The number that a digit string stands for, read from the left.
unfoldable pub value_onto : ℕ → Text → ℕ
value_onto acc [] = acc
value_onto acc (d ∷ ds) = value_onto (acc * 10 + (d - 48)) ds
