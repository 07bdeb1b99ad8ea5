-- ===== src/Fat/Names.antt =====
-- The 8.3 name of a directory slot (kernel/src/fs/fat.rs): writing a name and decoding it.
use willo_main.Prelude.{
  ℕ, zero, suc, ◌≤◌, ◌<◌, ◌≡◌, ◌≢◌, ◌⊎◌, refl, sym, ap, ◌∙◌, false, none, some, [], ◌∷◌, ◌++◌,
  append_assoc, map, Text, codes, same, if◌then◌else◌, take, drop, length, All, arith,
}
use willo_main.Path.{is_empty}
use willo_main.Fat.{
  upper, lower, split_dot, pad, heapless_upper, base_and_ext, or_whole, name_field, up_to_space,
  decode_short_name,
}

-- A byte that survives the case changes and the padding: ASCII, not a space, no dot, not upper
-- case, not zero.
abbrev pub IsPlain : ℕ → Type 0
IsPlain c = (0 < c) × (c < 128) × (c ≢ 32) × (c ≢ 46) × ((c < 65) ⊎ (90 < c))

-- The two parts of a name, as `decode_short_name` joins them.
abbrev pub join_parts : Text → Text → Text
join_parts base ext = if is_empty ext then base else base ++ (46 ∷ ext)

-- A lower-case 8.3 name: one to eight plain bytes, and up to three behind a dot.
pub record IsShortName (name : Text) : Type 0 where
  pub base : Text
  pub ext : Text
  pub parts : name ≡ join_parts base ext
  pub base_plain : All IsPlain base
  pub ext_plain : All IsPlain ext
  pub base_filled : is_empty base ≡ false
  pub base_short : length base ≤ 8
  pub ext_short : length ext ≤ 3

lower-upper : (c : ℕ) → IsPlain c → lower (upper c) ≡ c
unfolding lower upper
lower-upper c h = ground arith

pub upper-range : (c : ℕ) → IsPlain c → (upper c ≢ 32) × (upper c < 128) × (0 < upper c)
unfolding upper
upper-range c h = (ground arith, ground arith, ground arith)

map-lower-upper : (s : Text) → All IsPlain s → map lower (map upper s) ≡ s
map-lower-upper [] h = refl
map-lower-upper (c ∷ s) h = cc (lower-upper c h.0, map-lower-upper s h.1)

up_to_space-pad :
    (n : ℕ) (s : Text)
    → length s ≤ n
    → All IsPlain s
    → up_to_space (pad n (map upper s)) ≡ map upper s
unfolding up_to_space pad
up_to_space-pad zero [] l h = refl
up_to_space-pad zero (c ∷ s) l h = absurd (omega arith)
up_to_space-pad (suc n) [] l h = refl
up_to_space-pad (suc n) (c ∷ s) l h =
    ground (arith, upper-range c h.0, up_to_space-pad n s (omega arith) h.1)

take_all : (n : ℕ) (s : Text) → length s ≤ n → take n s ≡ s
take_all zero [] h = refl
take_all zero (x ∷ s) h = absurd (omega arith)
take_all (suc n) [] h = refl
take_all (suc n) (x ∷ s) h = ap (λ t. x ∷ t) (take_all n s (omega arith))

take-pad : (n : ℕ) (s r : Text) → take n (pad n s ++ r) ≡ pad n s
unfolding pad
take-pad zero s r = refl
take-pad (suc n) [] r = ap (λ t. 32 ∷ t) (take-pad n [] r)
take-pad (suc n) (x ∷ s) r = ap (λ t. x ∷ t) (take-pad n s r)

drop-pad : (n : ℕ) (s r : Text) → drop n (pad n s ++ r) ≡ r
unfolding pad
drop-pad zero s r = refl
drop-pad (suc n) [] r = drop-pad n [] r
drop-pad (suc n) (x ∷ s) r = drop-pad n s r

pub length-pad : (n : ℕ) (s : Text) → length (pad n s) ≡ n
unfolding pad
length-pad zero s = refl
length-pad (suc n) [] = ap suc (length-pad n [])
length-pad (suc n) (x ∷ s) = ap suc (length-pad n s)

split_dot-none : (s : Text) → All IsPlain s → split_dot s ≡ none
unfolding split_dot
split_dot-none [] h = refl
split_dot-none (c ∷ s) h = ground (arith, split_dot-none s h.1)

split_dot-append :
    (base ext : Text) → All IsPlain ext → split_dot (base ++ (46 ∷ ext)) ≡ some (base, ext)
unfolding split_dot
split_dot-append [] ext h = ground (arith, split_dot-none ext h)
split_dot-append (c ∷ base) ext h = ground (arith, split_dot-append base ext h)

-- A name that does not begin with a dot is neither of the two special ones.
starts_plain :
    (c : ℕ) (s : Text)
    → c ≢ 46
    → (same (c ∷ s) (codes ".") ≡ false) × (same (c ∷ s) (codes "..") ≡ false)
unfolding same
starts_plain c s h = (ground arith, ground arith)

head_plain :
    (base ext : Text)
    → All IsPlain base
    → is_empty base ≡ false
    → (same (join_parts base ext) (codes ".") ≡ false)
      × (same (join_parts base ext) (codes "..") ≡ false)
head_plain [] ext h f = cc
head_plain (c ∷ base) [] h f = starts_plain c base h.0.3
head_plain (c ∷ base) (e ∷ ext) h f = starts_plain c (base ++ (46 ∷ e ∷ ext)) h.0.3

pub IsShortName-plain_start :
    (name : Text)
    → IsShortName name
    → (same name (codes ".") ≡ false) × (same name (codes "..") ≡ false)
IsShortName-plain_start name h =
    let p = head_plain h.base h.ext h.base_plain h.base_filled in (rw h.parts p.0, rw h.parts p.1)

split_dot-join_parts :
    (base ext : Text)
    → All IsPlain base
    → All IsPlain ext
    → ◌≡◌ {A = Text × Text}
        (or_whole (split_dot (join_parts base ext)) (join_parts base ext))
        (base, ext)
split_dot-join_parts base [] h k = rw (split_dot-none base h)
split_dot-join_parts base (c ∷ ext) h k = rw (split_dot-append base (c ∷ ext) k)

pub base_and_ext_lem :
    (name : Text) (h : IsShortName name) → ◌≡◌ {A = Text × Text} (base_and_ext name) (h.base, h.ext)
unfolding base_and_ext
base_and_ext_lem name h =
    let (dot, dots) = IsShortName-plain_start name h in
    rw (dot, dots)
      (ap (λ t. or_whole (split_dot t) t) h.parts
        ∙ split_dot-join_parts h.base h.ext h.base_plain h.ext_plain)

heapless_upper_short : (s : Text) → length s ≤ 11 → heapless_upper s ≡ map upper s
unfolding heapless_upper
heapless_upper_short s h = ap (map upper) (take_all 11 s h)

abbrev field_of : Text × Text → Text
field_of (base, ext) = pad 8 (heapless_upper base) ++ pad 3 (heapless_upper ext)

name_field_plain :
    (name : Text)
    → same name (codes ".") ≡ false
    → same name (codes "..") ≡ false
    → name_field name ≡ field_of (base_and_ext name)
unfolding name_field
name_field_plain name h k = rw (h, k)

pub name_field_lem :
    (name : Text) (h : IsShortName name)
    → name_field name ≡ pad 8 (map upper h.base) ++ pad 3 (map upper h.ext)
name_field_lem name h =
    let (dot, dots) = IsShortName-plain_start name h in
    name_field_plain name dot dots
    ∙ (ap field_of (base_and_ext_lem name h)
        ∙ cc (
          heapless_upper_short h.base (omega (arith, h.base_short)),
          heapless_upper_short h.ext (omega (arith, h.ext_short)),
        ))

is_empty-map-upper : (s : Text) → is_empty (map upper s) ≡ is_empty s
is_empty-map-upper [] = refl
is_empty-map-upper (c ∷ s) = refl

lower_dot : lower 46 ≡ 46
unfolding lower
lower_dot = refl

map-append_lower : (s t : Text) → map lower (s ++ t) ≡ map lower s ++ map lower t
map-append_lower [] t = refl
map-append_lower (c ∷ s) t = ap (λ r. lower c ∷ r) (map-append_lower s t)

lower-join_parts :
    (base ext : Text)
    → All IsPlain base
    → All IsPlain ext
    → map lower (join_parts (map upper base) (map upper ext)) ≡ join_parts base ext
lower-join_parts base [] h k = map-lower-upper base h
lower-join_parts base (c ∷ ext) h k =
    map-append_lower (map upper base) (46 ∷ map upper (c ∷ ext))
    ∙ cc (map-lower-upper base h, map-lower-upper (c ∷ ext) k, lower_dot)

decode_fields :
    (slot b e : Text)
    → up_to_space (take 8 slot) ≡ b
    → up_to_space (take 3 (drop 8 slot)) ≡ e
    → decode_short_name slot ≡ map lower (join_parts b e)
unfolding decode_short_name
decode_fields slot b e h k = cc

-- Decoding the name field of a slot that was written for a lower-case 8.3 name gives that name
-- back.
pub decode_short_name-name_field :
    (name rest : Text) → IsShortName name → decode_short_name (name_field name ++ rest) ≡ name
decode_short_name-name_field name rest h =
    let b = map upper h.base in
    let e = map upper h.ext in
    let slot : name_field name ++ rest ≡ pad 8 b ++ (pad 3 e ++ rest) =
      ap (λ t. t ++ rest) (name_field_lem name h) ∙ append_assoc (pad 8 b) (pad 3 e) rest in
    ap decode_short_name slot
    ∙ (decode_fields (pad 8 b ++ (pad 3 e ++ rest)) b e
          (ap up_to_space (take-pad 8 b (pad 3 e ++ rest))
            ∙ up_to_space-pad 8 h.base h.base_short h.base_plain)
          (ap (λ t. up_to_space (take 3 t)) (drop-pad 8 b (pad 3 e ++ rest))
            ∙ (ap up_to_space (take-pad 3 e rest)
                ∙ up_to_space-pad 3 h.ext h.ext_short h.ext_plain))
        ∙ (lower-join_parts h.base h.ext h.base_plain h.ext_plain ∙ sym h.parts))
