-- ===== src/Tmp.antt =====
-- kernel/src/fs/tmp.rs: the writable in-memory file system. A write returns the new tree, or an
-- error with the tree left as it was: every method mutates after its last check. The mutex is held
-- for the whole of a method, so a method is one step.
pub mod Keys
pub mod Edit
pub mod Change
pub mod Files
pub mod Directories
use willo_main.Prelude.{
  ℕ, Bool, true, false, Option, none, some, List, [], ◌∷◌, ◌++◌, Text, codes, same, if◌then◌else◌,
}
use willo_main.Path.{segments}
use willo_main.Fs.{
  FsError, not_found, not_a_dir, is_a_dir, io, Result, ok, err, ◌>>=◌, Effect, FileSystem, refuse,
  read_at_default,
}
use willo_main.Bytes.{compare_text, before, equal, after}

-- `Node`, with the `BTreeMap<String, Node>` of a directory as the list of its entries by key.
mutual
  pub data Node : Type 0 where
    file : Text → Node
    dir : Entries → Node

  pub data Entries : Type 0 where
    end : Entries
    entry : Text → Node → Entries → Entries

-- `BTreeMap::get`
unfoldable pub get : Text → Entries → Option Node
unfolding same
get k end = none
get k (entry j n rest) = if same j k then some n else get k rest

-- `BTreeMap::insert`, at the key's place in the order.
unfoldable pub insert : Text → Node → Entries → Entries
unfolding compare_text
insert k n end = entry k n end
insert k n (entry j m rest) = elim (compare_text k j) [
  | before ↦ entry k n (entry j m rest)
  | equal ↦ entry k n rest
  | after ↦ entry j m (insert k n rest)
]

-- `BTreeMap::remove`
unfoldable pub erase : Text → Entries → Entries
unfolding same
erase k end = end
erase k (entry j m rest) = let kept = erase k rest in if same j k then kept else entry j m kept

unfoldable pub keys : Entries → List Text
keys end = []
keys (entry j m rest) = j ∷ keys rest

-- `split_last`, with the copy of the front part.
unfoldable pub split_last : List Text → Option (List Text × Text)
split_last [] = none
split_last (s ∷ []) = some ([], s)
split_last (s ∷ t ∷ ss) = elim (split_last (t ∷ ss)) [
  | none ↦ none
  | some (front, last) ↦ some (s ∷ front, last)
]

unfoldable pub split_parent : Text → Option (List Text × Text)
unfolding segments split_last
split_parent rel = split_last (segments rel)

unfoldable pub walk : Node → List Text → Result Node
unfolding get
walk n [] = ok n
walk (file b) (s ∷ ss) = err not_a_dir
walk (dir d) (s ∷ ss) = elim (get s d) [ none ↦ err not_found | some n ↦ walk n ss ]

-- `walk_mut` to a directory and the change `f` of it in place: the nodes on the way are replaced.
unfoldable pub edit : Node → List Text → (Entries → Result Entries) → Result Node
unfolding get insert
edit (file b) [] f = err not_a_dir
edit (dir d) [] f = f d >>= λ d'. ok (dir d')
edit (file b) (s ∷ ss) f = err not_a_dir
edit (dir d) (s ∷ ss) f = elim (get s d) [
  | none ↦ err not_found
  | some n ↦ edit n ss f >>= λ n'. ok (dir (insert s n' d))
]

-- The start that the write methods share: `split_parent`, `walk_mut`, and the change of the parent.
abbrev edit_parent :
    Option (List Text × Text) → (Text → Entries → Result Entries) → Node → Result Node
edit_parent none f n = err io
edit_parent (some (parent, name)) f n = edit n parent (f name)

abbrev contents : Node → Result Text
contents (file b) = ok b
contents (dir d) = err is_a_dir

abbrev names : Node → Result (List Text)
names (file b) = err not_a_dir
names (dir d) = ok (keys d)

unfoldable pub read_file : Text → Node → Result Text
unfolding segments walk
read_file rel root = walk root (segments rel) >>= contents

unfoldable pub list_dir : Text → Node → Result (List Text)
unfolding segments walk keys
list_dir rel root = walk root (segments rel) >>= names

unfoldable pub is_dir : Text → Node → Bool
unfolding segments walk
is_dir rel root = elim (walk root (segments rel)) [ ok (dir d) ↦ true | _ ↦ false ]

unfoldable pub create_in : Text → Entries → Result Entries
unfolding get insert
create_in name d = elim (get name d) [
  | some (dir e) ↦ err is_a_dir
  | _ ↦ ok (insert name (file []) d)
]

unfoldable pub write_in : Text → Text → Entries → Result Entries
unfolding get insert
write_in bytes name d = elim (get name d) [
  | some (dir e) ↦ err is_a_dir
  | _ ↦ ok (insert name (file bytes) d)
]

unfoldable pub append_in : Text → Text → Entries → Result Entries
unfolding get insert
append_in bytes name d = elim (get name d) [
  | some (file b) ↦ ok (insert name (file (b ++ bytes)) d)
  | some (dir e) ↦ err is_a_dir
  | none ↦ ok (insert name (file bytes) d)
]

unfoldable pub create_dir_in : Text → Entries → Result Entries
unfolding get insert
create_dir_in name d = elim (get name d) [ some n ↦ err io | none ↦ ok (insert name (dir end) d) ]

unfoldable pub remove_in : Text → Entries → Result Entries
unfolding get erase
remove_in name d = elim (get name d) [
  | none ↦ err not_found
  | some (file b) ↦ ok (erase name d)
  | some (dir end) ↦ ok (erase name d)
  | some (dir (entry j m rest)) ↦ err io
]

unfoldable pub create_file : Text → Node → Result Node
unfolding split_parent edit create_in
create_file rel root = edit_parent (split_parent rel) create_in root

unfoldable pub write_file : Text → Text → Node → Result Node
unfolding split_parent edit write_in
write_file rel bytes root = edit_parent (split_parent rel) (write_in bytes) root

unfoldable pub append_file : Text → Text → Node → Result Node
unfolding split_parent edit append_in
append_file rel bytes root = edit_parent (split_parent rel) (append_in bytes) root

unfoldable pub create_dir : Text → Node → Result Node
unfolding split_parent edit create_dir_in
create_dir rel root = edit_parent (split_parent rel) create_dir_in root

unfoldable pub remove : Text → Node → Result Node
unfolding split_parent edit remove_in
remove rel root = edit_parent (split_parent rel) remove_in root

-- `TmpFs::new`
abbrev pub fresh : Node
fresh = dir end

-- The trait's methods over a state that holds the tree.
module _ {W : Type 0} (tree : W → Node) (put_tree : Node → W → W) where
  abbrev pub store : Result Node → W → Result (Unit {0}) × W
  store (ok root) w = (ok tt, put_tree root w)
  store (err e) w = (err e, w)

  unfoldable pub tmpfs : FileSystem W
  unfolding read_file list_dir is_dir create_file write_file append_file create_dir remove
      read_at_default
  tmpfs = record {
    read_file = λ rel w. (read_file rel (tree w), w);
    list_dir = λ rel w. (list_dir rel (tree w), w);
    is_dir = λ rel w. (is_dir rel (tree w), w);
    writable = true;
    backing = codes "tmpfs";
    create_file = λ rel w. store (create_file rel (tree w)) w;
    write_file = λ rel bytes w. store (write_file rel bytes (tree w)) w;
    append_file = λ rel bytes w. store (append_file rel bytes (tree w)) w;
    create_dir = λ rel w. store (create_dir rel (tree w)) w;
    remove = λ rel w. store (remove rel (tree w)) w;
    read_at = read_at_default (λ rel w. (read_file rel (tree w), w));
    write_at = λ rel off bytes. refuse;
  }
