-- ===== src/Fat/Entry.antt =====
-- A directory slot from `write_short_entry` through `read_dir` (kernel/src/fs/fat.rs).
use willo_main.Prelude.{
  ℕ, suc, ◌+◌, ◌*◌, ◌/◌, ◌%◌, ◌^◌, ◌<◌, ◌≡◌, refl, sym, subst, append_assoc, ap, ◌∙◌, false, [],
  ◌∷◌, ◌++◌, map, Text, codes, same, ◌==◌, length, length-append, replicate, arith, All,
}
use willo_main.Path.{is_empty}
use willo_main.Fat.{
  found, byte, word16, word32, le16, le32, name_field, write_short_entry, decode_short_name,
  entry_of, is_hidden, read_slot, upper, pad,
}
use willo_main.Fat.Names.{
  IsPlain, IsShortName, IsShortName-plain_start, decode_short_name-name_field, name_field_lem,
  length-pad, upper-range,
}

byte-append : (f r : Text) (i : ℕ) → byte (f ++ r) (length f + i) ≡ byte r i
byte-append [] r i = let e : 0 + i ≡ i = omega arith in ap (byte r) e
byte-append (x ∷ f) r i =
    let e : suc (length f) + i ≡ suc (length f + i) = omega arith in
    ap (byte (x ∷ (f ++ r))) e ∙ byte-append f r i

byte_after : (f r : Text) (i : ℕ) → length f ≡ 11 → byte (f ++ r) (11 + i) ≡ byte r i
byte_after f r i h = ap (λ n. byte (f ++ r) (n + i)) (sym h) ∙ byte-append f r i

length-name_field : (name : Text) → IsShortName name → length (name_field name) ≡ 11
length-name_field name h =
    ap length (name_field_lem name h)
    ∙ omega (
      arith,
      length-append (pad 8 (map upper h.base)) (pad 3 (map upper h.ext)),
      length-pad 8 (map upper h.base),
      length-pad 3 (map upper h.ext),
    )

first_byte :
    (base r : Text)
    → All IsPlain base
    → is_empty base ≡ false
    → (0 < byte (pad 8 (map upper base) ++ r) 0) × (byte (pad 8 (map upper base) ++ r) 0 < 128)
unfolding pad
first_byte [] r h f = cc
first_byte (c ∷ base) r h f = ((upper-range c h.0).2, (upper-range c h.0).1)

-- Everything behind the name.
tail_of : ℕ → ℕ → ℕ → Text
tail_of attrs cluster size =
    attrs
    ∷ (replicate 8 0
        ++ (le16 (cluster / 65536 % 65536)
            ++ (replicate 4 0 ++ (le16 (cluster % 65536) ++ le32 size))))

slot_parts :
    (name : Text) (attrs cluster size : ℕ)
    → write_short_entry name attrs cluster size ≡ name_field name ++ tail_of attrs cluster size
unfolding write_short_entry tail_of
slot_parts name attrs cluster size = refl

pub length-write_short_entry :
    (name : Text) (attrs cluster size : ℕ)
    → IsShortName name
    → length (write_short_entry name attrs cluster size) ≡ 32
unfolding tail_of
length-write_short_entry name attrs cluster size h =
    ap length (slot_parts name attrs cluster size)
    ∙ (length-append (name_field name) (tail_of attrs cluster size)
        ∙ ap (λ n. n + 21) (length-name_field name h))

read_slot_found :
    (slot : Text)
    → (byte slot 0 == 0) ≡ false
    → is_hidden slot ≡ false
    → same (decode_short_name slot) (codes ".") ≡ false
    → same (decode_short_name slot) (codes "..") ≡ false
    → read_slot slot ≡ found (entry_of slot)
unfolding read_slot
read_slot_found slot a b c d = rw (a, b, c, d)

module _ (name : Text) (attrs cluster size : ℕ) (h : IsShortName name) where
  at :
      (i : ℕ)
      → byte (write_short_entry name attrs cluster size) (11 + i)
        ≡ byte (tail_of attrs cluster size) i
  at i =
      ap (λ t. byte t (11 + i)) (slot_parts name attrs cluster size)
      ∙ byte_after (name_field name) (tail_of attrs cluster size) i (length-name_field name h)

  word16-cluster :
      cluster < 2 ^ 32
      → word16 (write_short_entry name attrs cluster size) 20 * 65536
          + word16 (write_short_entry name attrs cluster size) 26
        ≡ cluster
  unfolding tail_of
  word16-cluster small = omega (arith, at 9, at 10, at 15, at 16)

  word32-size : size < 2 ^ 32 → word32 (write_short_entry name attrs cluster size) 28 ≡ size
  unfolding tail_of
  word32-size small = omega (arith, at 17, at 18, at 19, at 20)

  first :
      (0 < byte (write_short_entry name attrs cluster size) 0)
      × (byte (write_short_entry name attrs cluster size) 0 < 128)
  first =
      let e : write_short_entry name attrs cluster size
          ≡ pad 8 (map upper h.base) ++ (pad 3 (map upper h.ext) ++ tail_of attrs cluster size) =
        slot_parts name attrs cluster size
        ∙ (ap (λ t. t ++ tail_of attrs cluster size) (name_field_lem name h)
            ∙ append_assoc (pad 8 (map upper h.base)) (pad 3 (map upper h.ext))
                (tail_of attrs cluster size)) in
      subst (λ t. (0 < byte t 0) × (byte t 0 < 128)) (sym e)
        (first_byte h.base _ h.base_plain h.base_filled)

  decoded : decode_short_name (write_short_entry name attrs cluster size) ≡ name
  decoded =
      ap decode_short_name (slot_parts name attrs cluster size)
      ∙ decode_short_name-name_field name _ h

  attrs_at : byte (write_short_entry name attrs cluster size) 11 ≡ attrs
  unfolding tail_of
  attrs_at = at 0

  entry_of_lem :
      cluster < 2 ^ 32
      → size < 2 ^ 32
      → entry_of (write_short_entry name attrs cluster size)
        ≡ record { name = name; is_dir = attrs / 16 % 2 == 1; cluster = cluster; size = size }
  unfolding entry_of
  entry_of_lem c s = λ i. record {
    name = decoded i;
    is_dir = attrs_at i / 16 % 2 == 1;
    cluster = word16-cluster c i;
    size = word32-size s i;
  }

  visible : attrs / 8 % 2 ≡ 0 → is_hidden (write_short_entry name attrs cluster size) ≡ false
  unfolding is_hidden
  visible v = ground (arith, first, attrs_at)

  -- A slot written for a lower-case 8.3 name, a cluster and a size of 32 bits, and attributes
  -- without the volume bit, is listed by read_dir with that name, cluster and size, as a directory
  -- exactly if the directory bit is set.
  pub read_slot-write_short_entry :
      cluster < 2 ^ 32
      → size < 2 ^ 32
      → attrs / 8 % 2 ≡ 0
      → read_slot (write_short_entry name attrs cluster size)
        ≡ found
            (record { name = name; is_dir = attrs / 16 % 2 == 1; cluster = cluster; size = size })
  read_slot-write_short_entry c s v =
      let (dot, dots) = IsShortName-plain_start name h in
      read_slot_found (write_short_entry name attrs cluster size) (ground (arith, first))
        (visible v) (ap (λ t. same t (codes ".")) decoded ∙ dot)
        (ap (λ t. same t (codes "..")) decoded ∙ dots)
      ∙ ap found (entry_of_lem c s)
