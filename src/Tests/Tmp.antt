-- ===== src/Tests/Tmp.antt =====
-- A tmpfs tree (kernel/src/fs/tmp.rs) through its methods.
use willo_main.Prelude.{◌≡◌, refl, ◌⊎◌, false, [], ◌++◌, Text, codes, same}
use willo_main.Path.{segments}
use willo_main.Fs.{not_found, io, ok, err}
use willo_main.Tmp.{
  Node, file, dir, end, entry, read_file, list_dir, is_dir, create_file, write_file, append_file,
  create_dir, remove,
}
use willo_main.Tmp.Keys.{is_prefix}
use willo_main.Tmp.Change.{write, apply}
use willo_main.Tmp.Files.{apply-frame, read_file-append_file}
use willo_main.Tmp.Directories.{remove_lem}

-- `/log` holds "a", `/d` holds the empty file `x`.
abbrev tree : Node
tree = dir (
    entry (codes "d") (dir (entry (codes "x") (file []) end))
      (entry (codes "log") (file (codes "a")) end))

abbrev written : Node
written = dir (
    entry (codes "d") (dir (entry (codes "x") (file (codes "hi")) end))
      (entry (codes "log") (file (codes "a")) end))

abbrev appended : Node
appended = dir (
    entry (codes "d") (dir (entry (codes "x") (file []) end))
      (entry (codes "log") (file (codes "ab")) end))

abbrev removed : Node
removed = dir (entry (codes "d") (dir (entry (codes "x") (file []) end)) end)

abbrev made : Node
made = dir (
    entry (codes "d") (dir (entry (codes "x") (file []) (entry (codes "y") (dir end) end)))
      (entry (codes "log") (file (codes "a")) end))

write_run : write_file (codes "/d/x") (codes "hi") tree ≡ ok written
unfolding write_file
write_run = refl

append_run : append_file (codes "/log") (codes "b") tree ≡ ok appended
unfolding append_file
append_run = refl

remove_run : (remove (codes "/log") tree ≡ ok removed) × (remove (codes "/d") tree ≡ err io)
unfolding remove
remove_run = (refl, refl)

create_dir_run : create_dir (codes "/d/y") tree ≡ ok made
unfolding create_dir
create_dir_run = refl

create_file_run : create_file (codes "/d/x") tree ≡ ok tree
unfolding create_file
create_file_run = refl

change_run : apply (write (codes "hi")) (codes "/d/x") tree ≡ ok written
unfolding apply
change_run = refl

apart : is_prefix (segments (codes "/d/x")) (segments (codes "/log")) ≡ false
unfolding is_prefix segments same
apart = refl

apply-frame_example :
    (read_file (codes "/log") written ≡ read_file (codes "/log") tree)
    × (is_dir (codes "/log") written ≡ is_dir (codes "/log") tree)
apply-frame_example =
    apply-frame (write (codes "hi")) (codes "/d/x") (codes "/log") tree written change_run apart

read_file-append_file_example :
    (x : Text) × (read_file (codes "/log") appended ≡ ok (x ++ codes "b"))
    × ((read_file (codes "/log") tree ≡ ok x)
        ⊎ ((read_file (codes "/log") tree ≡ err not_found) × (x ≡ [])))
read_file-append_file_example =
    read_file-append_file (codes "/log") (codes "b") tree appended append_run

remove_lem_example :
    ((is_dir (codes "/log") tree ≡ false) ⊎ (list_dir (codes "/log") tree ≡ ok []))
    × (read_file (codes "/log") removed ≡ err not_found)
    × (is_dir (codes "/log") removed ≡ false)
remove_lem_example = remove_lem (codes "/log") tree removed remove_run.0
