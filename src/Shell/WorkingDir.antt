-- ===== src/Shell/WorkingDir.antt =====
-- The shell's working directory (kernel/src/shell.rs) through a command line.
use willo_main.Prelude.{
  ℕ, ◌≡◌, refl, Bool, Option, none, some, List, [], Text, codes, List-cases, Bool-cases, inl, inr,
  arith,
}
use willo_main.Path.{render, IsCanonical}
use willo_main.Path.Normalize.{normalize-IsCanonical}
use willo_main.Vfs.Calls.{is_dir}
use willo_main.Shell.{
  Shell, Command, command_of, on_other, on_pwd, on_ls, on_cd, on_cat, on_echo, on_clear, on_mount,
  on_uptime, on_touch, on_mkdir, on_rm, on_write, on_help, target_of, words_of, cmd_cd, run_command,
  execute_line, first_of,
}

target_of-IsCanonical :
    (cwd default : Text) (path : Option Text)
    → IsCanonical cwd
    → IsCanonical default
    → IsCanonical (target_of cwd default path)
unfolding target_of
target_of-IsCanonical cwd default none h k = k
target_of-IsCanonical cwd default (some p) h k = normalize-IsCanonical cwd p h

module _ {W : Type 0} (ticks : W → ℕ) (is_utf8 : Text → Bool) where
  -- What a reply leaves of a shell, under a predicate on shells.
  abbrev Leaves : (Shell W → Type 0) → Option Text × Shell W × W → Type 0
  Leaves P reply = P reply.1

  cmd_cd-IsCanonical :
      (sh : Shell W) (path : Option Text) (w : W)
      → IsCanonical sh.cwd
      → IsCanonical (cmd_cd sh path w).1.cwd
  unfolding cmd_cd render
  cmd_cd-IsCanonical sh path w h =
      elim (Bool-cases (is_dir sh.vfs (target_of sh.cwd (codes "/") path) w).0) [
        | inl e ↦ rw e (target_of-IsCanonical sh.cwd (codes "/") path h ([], tt, refl))
        | inr e ↦ rw e h
      ]

  run_command-Leaves :
      (P : Shell W → Type 0) (sh : Shell W) (cmd : Command) (args : List Text) (w : W)
      → P sh
      → P (cmd_cd sh (first_of args) w).1
      → Leaves P (run_command ticks is_utf8 sh cmd args w)
  unfolding run_command
  run_command-Leaves P sh on_pwd args w h k = h
  run_command-Leaves P sh on_ls args w h k = h
  run_command-Leaves P sh on_cd args w h k = k
  run_command-Leaves P sh on_cat args w h k = h
  run_command-Leaves P sh on_echo args w h k = h
  run_command-Leaves P sh on_clear args w h k = h
  run_command-Leaves P sh on_mount args w h k = h
  run_command-Leaves P sh on_uptime args w h k = h
  run_command-Leaves P sh on_touch args w h k = h
  run_command-Leaves P sh on_mkdir args w h k = h
  run_command-Leaves P sh on_rm args w h k = h
  run_command-Leaves P sh on_write args w h k = h
  run_command-Leaves P sh on_help args w h k = h
  run_command-Leaves P sh (on_other cmd) args w h k = h

  cmd_cd_vfs : (sh : Shell W) (path : Option Text) (w : W) → (cmd_cd sh path w).1.vfs ≡ sh.vfs
  unfolding cmd_cd
  cmd_cd_vfs sh path w = ground arith

  -- From a canonical working directory, a command line leaves the shell with a canonical working
  -- directory and with the same mount table.
  pub execute_line-IsCanonical :
      (sh : Shell W) (line : Text) (w : W)
      → IsCanonical sh.cwd
      → IsCanonical (execute_line ticks is_utf8 sh line w).1.cwd
        × ((execute_line ticks is_utf8 sh line w).1.vfs ≡ sh.vfs)
  unfolding execute_line
  execute_line-IsCanonical sh line w h = elim (List-cases (words_of line)) [
    | inl e ↦ rw (execute_line, e) (h, refl)
    | inr (cmd, args, e) ↦
        rw (execute_line, e)
          (run_command-Leaves (λ t. IsCanonical t.cwd × (t.vfs ≡ sh.vfs)) sh (command_of cmd) args w
            (h, refl) (cmd_cd-IsCanonical sh (first_of args) w h, cmd_cd_vfs sh (first_of args) w))
  ]
