-- ===== src/Runner.antt =====
-- src/main.rs: the host runner. What the host does (files, processes, the image builders) is outside:
-- a run is a function of the host's answers, and gives the actions in their order and the exit code.
pub mod Cleanup
use willo_main.Prelude.{
  ℕ, ◌+◌, ◌*◌, Bool, true, false, ◌&&◌, ◌||◌, not, Option, none, some, List, [], ◌∷◌, ◌++◌, Text,
  codes, same, ◌==◌, if◌then◌else◌,
}
use willo_main.Bytes.{decimal}

-- `QemuExitCode` (kernel/src/lib.rs)
pub data QemuExitCode : Type 0 where
  success failed : QemuExitCode

abbrev pub exit_value : QemuExitCode → ℕ
exit_value success = 16
exit_value failed = 17

abbrev pub qemu_exit_success : ℕ
qemu_exit_success = 33

abbrev pub qemu_exit_failed : ℕ
qemu_exit_failed = 35

-- The variables of the environment that are set.
pub record Env : Type 0 where
  pub headless : Bool
  pub gui : Bool
  pub keep_disk : Bool
  pub persist : Bool
  pub vbox : Bool

-- The kernel's path, with its `file_name` and its parent's.
pub record KernelPath : Type 0 where
  pub path : Text
  pub file_name : Option Text
  pub parent_name : Option Text

-- What a process gave: it could not be started, or its code, if it has one.
pub data Status : Type 0 where
  not_started : Status
  ended : Option ℕ → Status

pub record Answers : Type 0 where
  pub kernel_exists : Bool
  pub image_built : Bool
  pub data_exists : Bool
  pub data_built : Bool
  pub data_exists_after : Bool
  pub boot_converted : Bool
  pub data_converted : Bool
  pub qemu : Status

pub data Disk : Type 0 where
  boot_disk data_disk boot_vdi data_vdi : Disk

pub data Action : Type 0 where
  build_image build_data convert_boot convert_data print_commands fsck : Action
  qemu : Bool → Action
  remove_file : Disk → Action

abbrev starts_with : Text → Text → Bool
starts_with s [] = true
starts_with [] (p ∷ ps) = false
starts_with (x ∷ s) (p ∷ ps) = x == p && starts_with s ps

abbrev test_name : (Text → Bool) → Option Text → Bool
test_name test none = false
test_name test (some n) = test n

unfoldable pub is_fat_write_test : KernelPath → Bool
is_fat_write_test p = test_name (λ n. starts_with n (codes "fat_write")) p.file_name

unfoldable pub is_test_binary : KernelPath → Bool
unfolding same
is_test_binary p = test_name (λ n. same n (codes "deps")) p.parent_name

unfoldable pub is_headless : Env → KernelPath → Bool
unfolding is_test_binary
is_headless env p = env.headless || (is_test_binary p && not env.gui)

-- The match on the code of the emulator.
unfoldable pub exit_code : Option ℕ → ℕ
exit_code none = 1
exit_code (some code) =
    if code == qemu_exit_success then 0 else if code == qemu_exit_failed then 1 else code

-- The removal of the images, at the end and where the emulator does not start.
unfoldable pub cleanup : Env → List Action
cleanup env =
    if env.keep_disk
    then []
    else remove_file boot_disk ∷ (if env.persist then [] else remove_file data_disk ∷ [])

-- The check of the data disk after the test of its writer.
unfoldable pub post_test : KernelPath → Answers → Option ℕ → List Action
unfolding is_test_binary is_fat_write_test
post_test p answers none = []
post_test p answers (some code) =
    if is_test_binary p
      && (code == qemu_exit_success && (is_fat_write_test p && answers.data_exists_after))
    then fsck ∷ []
    else []

unfoldable pub after_qemu : Env → KernelPath → Answers → Status → List Action × ℕ
unfolding cleanup post_test exit_code
after_qemu env p answers not_started = (cleanup env, 1)
after_qemu env p answers (ended code) = (post_test p answers code ++ cleanup env, exit_code code)

-- `run_vbox_mode`, which ends the run.
unfoldable pub run_vbox_mode : Answers → List Action × ℕ
run_vbox_mode answers =
    let start = remove_file boot_vdi ∷ remove_file data_vdi ∷ convert_boot ∷ [] in
    if answers.boot_converted
    then (if answers.data_converted
        then (start ++ (convert_data ∷ print_commands ∷ []), 0)
        else (start ++ (convert_data ∷ []), 1))
    else (start, 1)

-- `main` from the data disk on.
unfoldable pub with_data : Env → KernelPath → Answers → List Action × ℕ
unfolding run_vbox_mode after_qemu is_headless
with_data env p answers =
    if env.vbox
    then run_vbox_mode answers
    else (let (actions, code) = after_qemu env p answers answers.qemu in
        (qemu (is_headless env p) ∷ actions, code))

abbrev pub before : List Action → List Action × ℕ → List Action × ℕ
before first (actions, code) = (first ++ actions, code)

-- `main` from the boot image on: a data disk that persists is built only where there is none.
unfoldable pub with_image : Env → KernelPath → Answers → List Action × ℕ
unfolding with_data
with_image env p answers =
    if not env.persist || not answers.data_exists
    then (if answers.data_built
        then before (build_data ∷ []) (with_data env p answers)
        else (build_data ∷ [], 1))
    else with_data env p answers

-- `main`, for the second argument if there is one.
unfoldable pub main : Env → Option KernelPath → Answers → List Action × ℕ
unfolding with_image
main env none answers = ([], 2)
main env (some p) answers =
    if answers.kernel_exists
    then (if answers.image_built
        then before (build_image ∷ []) (with_image env p answers)
        else (build_image ∷ [], 1))
    else ([], 2)
