-- ===== src/Tmp/Directories.antt =====
-- Creating and removing entries in `TmpFs` (kernel/src/fs/tmp.rs).
use willo_main.Prelude.{
  ◌≡◌, refl, ◌∙◌, ◌⊎◌, ◌≢◌, ap, true, false, Option, none, some, [], Text, same_refl, arith, inl,
  inr, Option-cases,
}
use willo_main.Path.{segments}
use willo_main.Fs.{not_found, ok, err, ◌>>=◌}
use willo_main.Tmp.{
  Node, file, dir, Entries, end, entry, get, insert, erase, keys, walk, contents, names, read_file,
  list_dir, is_dir, create_in, create_dir_in, remove_in, create_file, create_dir, remove,
}
use willo_main.Tmp.Keys.{get-insert_self, get-erase}
use willo_main.Tmp.Change.{create, make_dir, delete, apply, entry_at, apply-Changed}
use willo_main.Tmp.Files.{is_directory, succeeded, is_dir-walk, read_file-walk, list_dir-walk}

is_dir-entry :
    (rel : Text) (root : Node) (o : Option Node)
    → walk root (segments rel) ≡ entry_at o
    → is_dir rel root ≡ succeeded (entry_at o >>= is_directory)
is_dir-entry rel root o e = is_dir-walk rel root ∙ ap (λ r. succeeded (r >>= is_directory)) e

read_file-entry :
    (rel : Text) (root : Node) (o : Option Node)
    → walk root (segments rel) ≡ entry_at o
    → read_file rel root ≡ (entry_at o >>= contents)
read_file-entry rel root o e = read_file-walk rel root ∙ ap (λ r. r >>= contents) e

list_dir-entry :
    (rel : Text) (root : Node) (o : Option Node)
    → walk root (segments rel) ≡ entry_at o
    → list_dir rel root ≡ (entry_at o >>= names)
list_dir-entry rel root o e = list_dir-walk rel root ∙ ap (λ r. r >>= names) e

-- What `remove` took away: a file, or a directory with no entries.
remove_in-ok :
    (name : Text) (d d' : Entries)
    → remove_in name d ≡ ok d'
    → (d' ≡ erase name d)
      × (((b : Text) × (get name d ≡ some (file b))) ⊎ (get name d ≡ some (dir end)))
unfolding remove_in
remove_in-ok name d d' h = elim (Option-cases (get name d)) [
  | inl e ↦ absurd (ground arith)
  | inr (file b, e) ↦ (ground arith, inl (b, e))
  | inr (dir end, e) ↦ (ground arith, inr e)
  | inr (dir (entry j m rest), e) ↦ absurd (ground arith)
]

-- A successful remove on the tmpfs took what was not a directory or an empty directory, and
-- afterwards the path is not found and is no directory.
pub remove_lem :
    (rel : Text) (root root' : Node)
    → remove rel root ≡ ok root'
    → ((is_dir rel root ≡ false) ⊎ (list_dir rel root ≡ ok []))
      × (read_file rel root' ≡ err not_found)
      × (is_dir rel root' ≡ false)
unfolding apply keys
remove_lem rel root root' h =
    let ch = apply-Changed delete rel root root' h in
    let (e, was) = remove_in-ok ch.name ch.old ch.new ch.changed in
    let gone : get ch.name ch.new ≡ none =
      ap (get ch.name) e ∙ (get-erase ch.name ch.name ch.old ∙ rw (same_refl ch.name)) in
    (
      elim was [
        | inl (b, f) ↦ inl (is_dir-entry rel root (some (file b)) (ch.found ∙ ap entry_at f))
        | inr f ↦ inr (list_dir-entry rel root (some (dir end)) (ch.found ∙ ap entry_at f))
      ],
      read_file-entry rel root' none (ch.finds ∙ ap entry_at gone),
      is_dir-entry rel root' none (ch.finds ∙ ap entry_at gone),
    )

create_dir_in-ok :
    (name : Text) (d d' : Entries)
    → create_dir_in name d ≡ ok d'
    → (get name d ≡ none) × (d' ≡ insert name (dir end) d)
unfolding create_dir_in
create_dir_in-ok name d d' h = ground arith

-- A successful create_dir on the tmpfs found nothing at the path, and leaves an empty directory
-- there.
pub create_dir_lem :
    (rel : Text) (root root' : Node)
    → create_dir rel root ≡ ok root'
    → (read_file rel root ≡ err not_found)
      × (is_dir rel root' ≡ true)
      × (list_dir rel root' ≡ ok [])
unfolding apply keys
create_dir_lem rel root root' h =
    let ch = apply-Changed make_dir rel root root' h in
    let (free, e) = create_dir_in-ok ch.name ch.old ch.new ch.changed in
    let made : get ch.name ch.new ≡ some (dir end) =
      ap (get ch.name) e ∙ get-insert_self ch.name (dir end) ch.old in
    (
      read_file-entry rel root none (ch.found ∙ ap entry_at free),
      is_dir-entry rel root' (some (dir end)) (ch.finds ∙ ap entry_at made),
      list_dir-entry rel root' (some (dir end)) (ch.finds ∙ ap entry_at made),
    )

create_in-ok :
    (name : Text) (d d' : Entries)
    → create_in name d ≡ ok d'
    → (d' ≡ insert name (file []) d) × ((e : Entries) → get name d ≢ some (dir e))
unfolding create_in
create_in-ok name d d' h = (ground arith, λ e f. ground arith)

-- A successful create_file on the tmpfs leaves an empty file, and the path was no directory
-- before.
pub create_file_lem :
    (rel : Text) (root root' : Node)
    → create_file rel root ≡ ok root'
    → (is_dir rel root ≡ false) × (read_file rel root' ≡ ok [])
unfolding apply
create_file_lem rel root root' h =
    let ch = apply-Changed create rel root root' h in
    let (e, no_dir) = create_in-ok ch.name ch.old ch.new ch.changed in
    (
      is_dir-entry rel root (get ch.name ch.old) ch.found
          ∙ not_a_directory (get ch.name ch.old) no_dir,
      read_file-entry rel root' (some (file []))
          (ch.finds ∙ ap entry_at (ap (get ch.name) e ∙ get-insert_self ch.name (file []) ch.old)),
    )
  where
    not_a_directory :
        (o : Option Node)
        → ((e : Entries) → o ≢ some (dir e))
        → succeeded (entry_at o >>= is_directory) ≡ false
    not_a_directory none no_dir = refl
    not_a_directory (some (file b)) no_dir = refl
    not_a_directory (some (dir e)) no_dir = absurd (no_dir e refl)
