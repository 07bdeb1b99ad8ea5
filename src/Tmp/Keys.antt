-- ===== src/Tmp/Keys.antt =====
-- The laws of a directory's map (`BTreeMap` in kernel/src/fs/tmp.rs), in `if` form.
use willo_main.Prelude.{
  ◌≡◌, refl, ◌∙◌, Bool, true, false, none, some, List, [], ◌∷◌, Text, same, same_refl, same→eq,
  if◌then◌else◌, arith, ◌&&◌,
}
use willo_main.Bytes.{compare_text_refl, compare_text-equal}
use willo_main.Tmp.{Node, Entries, end, entry, get, insert, erase}

pub get-insert :
    (k j : Text) (n : Node) (d : Entries)
    → get j (insert k n d) ≡ (if same k j then some n else get j d)
unfolding get insert
get-insert k j n end = refl
get-insert k j n (entry i m rest) = ground (
  arith,
  get-insert k j n rest,
  same→eq k j,
  same→eq i j,
  same_refl i,
  compare_text-equal k i,
  compare_text_refl k,
)

pub get-insert_self : (k : Text) (n : Node) (d : Entries) → get k (insert k n d) ≡ some n
get-insert_self k n d = get-insert k k n d ∙ rw (same_refl k)

pub get-insert_other :
    (k j : Text) (n : Node) (d : Entries) → same k j ≡ false → get j (insert k n d) ≡ get j d
get-insert_other k j n d h = get-insert k j n d ∙ rw h

pub get-erase :
    (k j : Text) (d : Entries) → get j (erase k d) ≡ (if same k j then none else get j d)
unfolding get erase
get-erase k j end = ground arith
get-erase k j (entry i m rest) =
    ground (arith, get-erase k j rest, same→eq i k, same→eq i j, same→eq k j, same_refl k)

-- `is_prefix p q`: the segments of `p` begin those of `q`.
unfoldable pub is_prefix : List Text → List Text → Bool
is_prefix [] q = true
is_prefix (s ∷ p) [] = false
is_prefix (s ∷ p) (t ∷ q) = same s t && is_prefix p q
