-- ===== src/Tests/Runner.antt =====
-- A test run of the host runner (src/main.rs) on a data disk that persists.
use willo_main.Prelude.{◌≡◌, refl, true, false, some, codes, All}
use willo_main.Runner.{Env, KernelPath, Answers, ended, main}
use willo_main.Runner.Cleanup.{Spares, IsSuccess, main-Spares, main-IsSuccess}

abbrev env : Env
env = record { headless = false; gui = false; keep_disk = false; persist = true; vbox = false }

abbrev kernel : KernelPath
kernel = record {
  path = codes "target/deps/fat_write-1";
  file_name = some (codes "fat_write-1");
  parent_name = some (codes "deps");
}

abbrev answers : Answers
answers = record {
  kernel_exists = true;
  image_built = true;
  data_exists = true;
  data_built = false;
  data_exists_after = true;
  boot_converted = false;
  data_converted = false;
  qemu = ended (some 33);
}

main-Spares_example : All Spares (main env (some kernel) answers).0
main-Spares_example = main-Spares env kernel answers refl refl

exit_run : (main env (some kernel) answers).1 ≡ 0
unfolding main
exit_run = refl

main-IsSuccess_example : IsSuccess (ended (some 33))
main-IsSuccess_example = main-IsSuccess env kernel answers refl exit_run
