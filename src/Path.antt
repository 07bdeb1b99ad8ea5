-- ===== src/Path.antt =====
-- kernel/src/fs/mod.rs: the pure path functions (`normalize`, `canonical_prefix`, `direct_child`),
-- with the methods of `str` that they call. A path is its list of bytes.
pub mod Segments
pub mod Normalize
pub mod Prefix
use willo_main.Prelude.{
  ℕ, Bool, true, false, Option, none, some, List, [], ◌∷◌, ◌++◌, Text, codes, same, ◌==◌,
  if◌then◌else◌, push, pop, All, ◌≢◌, ◌≡◌,
}
use mathlib.Core.List.{foldl}

-- `/`
abbrev pub slash : ℕ
slash = 47

-- Puts a byte in front of the first piece.
abbrev pub cons_piece : ℕ → List Text → List Text
cons_piece x [] = (x ∷ []) ∷ []
cons_piece x (s ∷ ss) = (x ∷ s) ∷ ss

-- `str::split('/')`: one piece more than there are slashes.
pub split : Text → List Text
split [] = [] ∷ []
split (x ∷ xs) = if x == slash then [] ∷ split xs else cons_piece x (split xs)

abbrev pub is_empty : Text → Bool
is_empty [] = true
is_empty (x ∷ xs) = false

-- `filter(|s| !s.is_empty())`
pub non_empty : List Text → List Text
non_empty [] = []
non_empty (s ∷ ss) = if is_empty s then non_empty ss else s ∷ non_empty ss

-- `s.split('/').filter(|s| !s.is_empty())`
unfoldable pub segments : Text → List Text
unfolding split non_empty
segments s = non_empty (split s)

abbrev pub starts_with_slash : Text → Bool
starts_with_slash [] = false
starts_with_slash (x ∷ xs) = x == slash

-- One segment of the input: `.` stays, `..` pops, any other name is pushed.
unfoldable pub apply_segment : List Text → Text → List Text
unfolding same
apply_segment stack s =
    if same s (codes ".") then stack else if same s (codes "..") then pop stack else push stack s

-- The loop that writes the stack out.
unfoldable pub join_segments : List Text → Text
join_segments [] = []
join_segments (s ∷ ss) = slash ∷ (s ++ join_segments ss)

unfoldable pub render : List Text → Text
unfolding join_segments
render [] = codes "/"
render (s ∷ ss) = join_segments (s ∷ ss)

-- The stack before the input is read: empty for an absolute input, else the names of `cwd`.
unfoldable pub start_stack : Text → Text → List Text
unfolding segments
start_stack cwd input = if starts_with_slash input then [] else segments cwd

unfoldable pub normalize : Text → Text → Text
unfolding segments apply_segment render start_stack
normalize cwd input = render (foldl apply_segment (start_stack cwd input) (segments input))

-- `str::trim_end_matches('/')`
unfoldable pub trim_end : Text → Text
trim_end [] = []
trim_end (x ∷ xs) =
    let rest = trim_end xs in
    if is_empty rest then (if x == slash then [] else x ∷ []) else x ∷ rest

unfoldable pub canonical_prefix : Text → Text
unfolding trim_end same
canonical_prefix p = if same p (codes "/") then [] else trim_end p

-- `str::strip_prefix`
unfoldable pub strip_prefix : Text → Text → Option Text
strip_prefix [] s = some s
strip_prefix (p ∷ ps) [] = none
strip_prefix (p ∷ ps) (x ∷ xs) = if p == x then strip_prefix ps xs else none

-- `str::contains('/')`
unfoldable pub contains_slash : Text → Bool
contains_slash [] = false
contains_slash (x ∷ xs) = if x == slash then true else contains_slash xs

-- The last test of `direct_child`: one name, and no further slash.
unfoldable pub child_name : Text → Option Text
unfolding contains_slash
child_name rest = if is_empty rest then none else if contains_slash rest then none else some rest

-- `rest` of `direct_child`.
unfoldable pub after_parent : Text → Text → Option Text
unfolding strip_prefix
after_parent parent child =
    if is_empty parent then strip_prefix (codes "/") child else (elim (strip_prefix parent child) [
      | none ↦ none
      | some after ↦ strip_prefix (codes "/") after
    ])

unfoldable pub direct_child : Text → Text → Option Text
unfolding after_parent child_name
direct_child parent child =
    if is_empty child
    then none
    else (elim (after_parent parent child) [ none ↦ none | some rest ↦ child_name rest ])

-- A name that `normalize` can put on its stack: not empty, no slash inside, neither `.` nor `..`.
pub record IsName (s : Text) : Type 0 where
  pub filled : is_empty s ≡ false
  pub flat : contains_slash s ≡ false
  pub not_dot : s ≢ codes "."
  pub not_dots : s ≢ codes ".."

-- An absolute path with single slashes, no trailing slash, and no `.` or `..`.
abbrev pub IsCanonical : Text → Type 0
IsCanonical p = (names : List Text) × All IsName names × (p ≡ render names)
