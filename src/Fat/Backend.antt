-- ===== src/Fat/Backend.antt =====
-- kernel/src/fs/fat.rs: the volume as a `FileSystem`, which passes each call on. A call that does not
-- end leaves no machine: the state is `none` from then on, and no later call does anything. Its result
-- is `io`, which no program gets to see.
use willo_main.Prelude.{ℕ, Bool, true, false, Option, none, some, codes}
use willo_main.Fs.{io, Result, ok, err, Effect, FileSystem, refuse, read_at_default}
use willo_main.Block.{BlockDevice}
use willo_main.Fat.{FatFs}
use willo_main.Fat.Io.{Io, Outcome, fail, done, unended}
use willo_main.Fat.Chain.{read_file, list_dir, is_dir}
use willo_main.Fat.Files.{create_file, write_file, append_file, create_dir, remove}

abbrev pub settle : {W A : Type 0} → Outcome A × W → Result A × Option W
settle (done a, w) = (ok a, some w)
settle (fail e, w) = (err e, some w)
settle (unended, w) = (err io, none)

abbrev pub on_machine : {W A : Type 0} → Io W A → Effect (Option W) A
on_machine call none = (err io, none)
on_machine call (some w) = settle (call w)

abbrev to_bool : {W : Type 0} → Result Bool × Option W → Bool × Option W
to_bool (ok b, w) = (b, w)
to_bool (err e, w) = (false, w)

-- The trait's methods; those that `FatFs` does not give are the defaults.
module _ {W : Type 0} (drive : BlockDevice W) (v : FatFs) (fuel : ℕ) where
  unfoldable pub fatfs : FileSystem (Option W)
  unfolding read_file list_dir is_dir create_file write_file append_file create_dir remove
      read_at_default
  fatfs = record {
    read_file = λ rel. on_machine (read_file drive v fuel rel);
    list_dir = λ rel. on_machine (list_dir drive v fuel rel);
    is_dir = λ rel w. to_bool (on_machine (is_dir drive v fuel rel) w);
    writable = true;
    backing = codes "fat32 on /dev/ata1";
    create_file = λ rel. on_machine (create_file drive v fuel rel);
    write_file = λ rel bytes. on_machine (write_file drive v fuel rel bytes);
    append_file = λ rel bytes. on_machine (append_file drive v fuel rel bytes);
    create_dir = λ rel. on_machine (create_dir drive v fuel rel);
    remove = λ rel. on_machine (remove drive v fuel rel);
    read_at = read_at_default (λ rel. on_machine (read_file drive v fuel rel));
    write_at = λ rel off bytes. refuse;
  }
