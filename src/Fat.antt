-- ===== src/Fat.antt =====
-- kernel/src/fs/fat.rs: the data of the FAT32 reader and writer, and the words and directory slots
-- that it encodes. A `u32` keeps its wrap-around written out.
pub mod Names
pub mod Entry
pub mod Io
pub mod Chain
pub mod Table
pub mod Directory
pub mod Files
pub mod Words
pub mod Mirror
pub mod Sectors
pub mod Contents
pub mod Linked
pub mod Written
pub mod Volume
pub mod Slots
pub mod Search
pub mod Taken
pub mod Summed
pub mod Allocated
pub mod Grown
pub mod Stored
pub mod Fresh
pub mod ReadBack
pub mod Freed
pub mod Listing
pub mod Pieces
pub mod Filled
pub mod Added
pub mod Listed
pub mod Found
pub mod Created
pub mod Backend
pub mod Mounted
pub mod Kept
use willo_main.Prelude.{
  ℕ, zero, suc, ◌+◌, ◌-◌, ◌*◌, ◌/◌, ◌%◌, ◌^◌, Bool, true, false, ◌&&◌, ◌||◌, not, Option, none,
  some, List, [], ◌∷◌, ◌++◌, map, Text, codes, same, ltb, leb, ◌==◌, if◌then◌else◌, take, drop,
  replicate, get_or,
}
use willo_main.Path.{is_empty}

-- The mounted volume.
pub record FatFs : Type 0 where
  pub bytes_per_sector : ℕ
  pub sectors_per_cluster : ℕ
  pub reserved_sectors : ℕ
  pub num_fats : ℕ
  pub sectors_per_fat : ℕ
  pub root_cluster : ℕ
  pub fat_start_lba : ℕ
  pub data_start_lba : ℕ

pub record DirEntry : Type 0 where
  pub name : Text
  pub is_dir : Bool
  pub cluster : ℕ
  pub size : ℕ

abbrev pub eoc_threshold : ℕ
eoc_threshold = 0x0FFFFFF8

-- `x & CLUSTER_MASK` is `x % cluster_mod`.
abbrev pub cluster_mod : ℕ
cluster_mod = 2 ^ 28

abbrev pub attr_directory : ℕ
attr_directory = 0x10

-- `u16::to_le_bytes`, `u32::to_le_bytes` and back.
abbrev pub le16 : ℕ → Text
le16 x = (x % 256) ∷ (x / 256 % 256) ∷ []

abbrev pub le32 : ℕ → Text
le32 x = (x % 256) ∷ (x / 256 % 256) ∷ (x / 65536 % 256) ∷ (x / 16777216 % 256) ∷ []

abbrev pub byte : Text → ℕ → ℕ
byte buf i = get_or buf i 0

abbrev pub word16 : Text → ℕ → ℕ
word16 buf i = byte buf i + 256 * byte buf (i + 1)

abbrev pub word32 : Text → ℕ → ℕ
word32 buf i =
    byte buf i + 256 * byte buf (i + 1) + 65536 * byte buf (i + 2) + 16777216 * byte buf (i + 3)

unfoldable pub upper : ℕ → ℕ
upper b = if leb 97 b && leb b 122 then b - 32 else b

unfoldable pub lower : ℕ → ℕ
lower b = if leb 65 b && leb b 90 then b + 32 else b

-- `eq_ignore_ascii_case`
unfoldable pub same_ignoring_case : Text → Text → Bool
unfolding same lower
same_ignoring_case s t = same (map lower s) (map lower t)

-- `rfind('.')`, with the two sides of the dot.
unfoldable pub split_dot : Text → Option (Text × Text)
split_dot [] = none
split_dot (x ∷ xs) = elim (split_dot xs) [
  | some (base, ext) ↦ some (x ∷ base, ext)
  | none ↦ if x == 46 then some ([], xs) else none
]

-- The field of `n` bytes: the text, cut or filled with spaces.
unfoldable pub pad : ℕ → Text → Text
pad zero s = []
pad (suc n) [] = 32 ∷ pad n []
pad (suc n) (x ∷ s) = x ∷ pad n s

-- `HeaplessUpper::from`: the bytes up to `len`.
unfoldable pub heapless_upper : Text → Text
unfolding upper
heapless_upper s = map upper (take 11 s)

-- The whole name where there is no dot.
abbrev pub or_whole : Option (Text × Text) → Text → Text × Text
or_whole none name = (name, [])
or_whole (some parts) name = parts

-- The basename and the extension that `write_short_entry` takes a name apart into.
unfoldable pub base_and_ext : Text → Text × Text
unfolding split_dot same
base_and_ext name =
    if same name (codes ".")
    then (codes ".", [])
    else if same name (codes "..")
    then (codes "..", [])
    else or_whole (split_dot name) name

-- Bytes 0 to 10 of a slot.
unfoldable pub name_field : Text → Text
unfolding heapless_upper pad same
name_field name =
    if same name (codes ".")
    then 46 ∷ replicate 10 32
    else if same name (codes "..")
    then 46 ∷ 46 ∷ replicate 9 32
    else (let (base, ext) = base_and_ext name in
        pad 8 (heapless_upper base) ++ pad 3 (heapless_upper ext))

-- The 32 bytes of a slot.
unfoldable pub write_short_entry : Text → ℕ → ℕ → ℕ → Text
unfolding name_field
write_short_entry name attrs cluster size =
    name_field name
    ++ (attrs
        ∷ (replicate 8 0
            ++ (le16 (cluster / 65536 % 65536)
                ++ (replicate 4 0 ++ (le16 (cluster % 65536) ++ le32 size)))))

-- `String::push(b as char)`: a byte above 127 becomes two bytes of UTF-8.
abbrev pub char_of_byte : ℕ → Text → Text
char_of_byte b rest = if ltb b 128 then b ∷ rest else (192 + b / 64) ∷ (128 + b % 64) ∷ rest

-- The loop that copies a field up to its first space.
unfoldable pub up_to_space : Text → Text
up_to_space [] = []
up_to_space (b ∷ bs) = let rest = up_to_space bs in if b == 32 then [] else char_of_byte b rest

unfoldable pub decode_short_name : Text → Text
unfolding up_to_space lower
decode_short_name slot =
    let name = up_to_space (take 8 slot) in
    let ext = up_to_space (take 3 (drop 8 slot)) in
    map lower (if is_empty ext then name else name ++ (46 ∷ ext))

-- The body of the loop of `read_dir`: the end of the directory, a slot to skip, or an entry.
pub data Slot : Type 0 where
  stop skip : Slot
  found : DirEntry → Slot

unfoldable pub entry_of : Text → DirEntry
unfolding decode_short_name
entry_of slot = record {
  name = decode_short_name slot;
  is_dir = byte slot 11 / 16 % 2 == 1;
  cluster = word16 slot 20 * 65536 + word16 slot 26;
  size = word32 slot 28;
}

-- Deleted, or the attributes of a long name or a volume label.
unfoldable pub is_hidden : Text → Bool
is_hidden slot = byte slot 0 == 0xE5 || (byte slot 11 % 16 == 15 || byte slot 11 / 8 % 2 == 1)

unfoldable pub read_slot : Text → Slot
read_slot slot =
    if byte slot 0 == 0
    then stop
    else if is_hidden slot
    then skip
    else if same (decode_short_name slot) (codes ".") || same (decode_short_name slot) (codes "..")
    then skip
    else found (entry_of slot)
