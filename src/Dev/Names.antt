-- ===== src/Dev/Names.antt =====
-- The flat name space of the device file system (kernel/src/fs/dev.rs), its directory and files.
use willo_main.Prelude.{◌≡◌, ◌↔◌, inl, inr, true, Text, arith, Bool-cases}
use willo_main.Path.{contains_slash}
use willo_main.Fs.{err, is_a_dir, is_ok}
use willo_main.Dev.{without_slash, flat_name, read_file, list_dir, is_dir}

-- A path of the device file system can be listed exactly if it is a directory.
pub list_dir_iff : (rel : Text) → (is_ok (list_dir rel) ≡ true) ↔ (is_dir rel ≡ true)
unfolding list_dir is_dir flat_name
list_dir_iff rel = elim (Bool-cases (contains_slash (without_slash rel))) [
  | inl e ↦ ground arith
  | inr e ↦ ground arith
]

-- Reading a directory of the device file system as a file gives the error IsADir.
pub read_file-dir : (rel : Text) → is_dir rel ≡ true → read_file rel ≡ err is_a_dir
unfolding read_file is_dir flat_name
read_file-dir rel h = ground arith
