-- ===== src/Tests/Dev.antt =====
-- Names of the device file system (kernel/src/fs/dev.rs).
use willo_main.Prelude.{◌≡◌, refl, true, codes}
use willo_main.Dev.{is_dir}

root_run : is_dir (codes "/") ≡ true
unfolding is_dir
root_run = refl
