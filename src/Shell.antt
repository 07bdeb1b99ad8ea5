-- ===== src/Shell.antt =====
-- kernel/src/shell.rs: the shell's commands, `Shell::execute_line` and what it calls. A reply is the
-- output; `none` is the `unreachable!` of `cmd_ls`. Outside are the clock and `str::from_utf8`.
pub mod Lines
pub mod Render
pub mod WorkingDir
pub mod Loop
pub mod Typing
unfoldable pub use Lines.*
use willo_main.Prelude.{
  ℕ, ◌+◌, Bool, true, false, ◌||◌, Option, none, some, List, [], ◌∷◌, ◌++◌, Text, codes, same, ◌==◌,
  if◌then◌else◌, push,
}
use willo_main.Path.{slash, is_empty, normalize, trim_end}
use willo_main.Fs.{FsError, not_found, not_a_dir, is_a_dir, io, unsupported, Result, ok, err}
use willo_main.Bytes.{compare_text, before, equal, after, decimal}
use willo_main.Fat.{char_of_byte}
use willo_main.Vfs.{Vfs}
use willo_main.Vfs.Calls.{
  list_mounts, read_file, list_dir, is_dir, create_file, create_dir, remove, write_file,
}

-- The path that an optional argument means.
unfoldable pub target_of : Text → Text → Option Text → Text
unfolding normalize
target_of cwd default none = default
target_of cwd default (some p) = normalize cwd p

-- The arms of the match on the command's name.
pub data Command : Type 0 where
  on_pwd on_ls on_cd on_cat on_echo on_clear on_mount on_uptime on_touch on_mkdir on_rm on_write
        on_help :
      Command
  on_other : Text → Command

unfoldable pub command_of : Text → Command
unfolding same
command_of cmd =
    if same cmd (codes "pwd")
    then on_pwd
    else if same cmd (codes "ls")
    then on_ls
    else if same cmd (codes "cd")
    then on_cd
    else if same cmd (codes "cat")
    then on_cat
    else if same cmd (codes "echo")
    then on_echo
    else if same cmd (codes "clear")
    then on_clear
    else if same cmd (codes "mount")
    then on_mount
    else if same cmd (codes "uptime")
    then on_uptime
    else if same cmd (codes "touch")
    then on_touch
    else if same cmd (codes "mkdir")
    then on_mkdir
    else if same cmd (codes "rm")
    then on_rm
    else if same cmd (codes "write")
    then on_write
    else if same cmd (codes "help")
    then on_help
    else on_other cmd

module _ (W : Type 0) where
  pub record Shell : Type 0 where
    pub vfs : Vfs W
    pub cwd : Text

abbrev pub failed_ls : FsError → Text → Option Text
failed_ls not_found p = some (line_of (codes "ls: not found: " ++ p))
failed_ls not_a_dir p = some (line_of (codes "ls: not a directory: " ++ p))
failed_ls is_a_dir p = none
failed_ls io p = some (line_of (codes "ls: i/o error: " ++ p))
failed_ls unsupported p = some (line_of (codes "ls: unsupported: " ++ p))

abbrev pub failed_cat : FsError → Text → Text
failed_cat not_found p = line_of (codes "cat: not found: " ++ p)
failed_cat is_a_dir p = line_of (codes "cat: is a directory: " ++ p)
failed_cat not_a_dir p = line_of (codes "cat: not a directory: " ++ p)
failed_cat io p = line_of (codes "cat: i/o error: " ++ p)
failed_cat unsupported p = line_of (codes "cat: unsupported: " ++ p)

unfoldable pub mount_lines : List (Text × Text) → Text
mount_lines [] = []
mount_lines ((prefix, backing) ∷ ms) =
    prefix ++ (codes " on " ++ (backing ++ (newline ∷ mount_lines ms)))

module _ {W : Type 0} where
  unfoldable pub new : Vfs W → Shell W
  new v = record { vfs = v; cwd = codes "/" }

  unfoldable pub prompt : Shell W → Text
  prompt sh = codes "willo:" ++ sh.cwd ++ codes "$ "

  -- The loop of `cmd_ls` over the sorted names.
  unfoldable pub show_entries : Vfs W → Text → List Text → W → Text × W
  unfolding is_dir trim_end
  show_entries v target [] w = ([], w)
  show_entries v target (name ∷ names) w =
      let (d, w1) = is_dir v (trim_end target ++ (slash ∷ name)) w in
      let (rest, w2) = show_entries v target names w1 in
      (name ++ ((if d then slash ∷ [] else []) ++ (newline ∷ rest)), w2)

  abbrev pub with_entries : Vfs W → Text → Result (List Text) × W → Option Text × W
  with_entries v target (ok entries, w) =
      (let (out, w1) = show_entries v target (sort_texts entries) w in (some out, w1))
  with_entries v target (err e, w) = (failed_ls e target, w)

  unfoldable pub cmd_ls : Shell W → Option Text → W → Option Text × W
  unfolding target_of list_dir show_entries sort_texts
  cmd_ls sh path w =
      let target = target_of sh.cwd sh.cwd path in
      with_entries sh.vfs target (list_dir sh.vfs target w)

  unfoldable pub cmd_cd : Shell W → Option Text → W → Text × Shell W × W
  unfolding target_of is_dir
  cmd_cd sh path w =
      let p = target_of sh.cwd (codes "/") path in
      let (d, w1) = is_dir sh.vfs p w in
      if d
      then ([], record sh { cwd = p }, w1)
      else (line_of (codes "cd: not a directory: " ++ p), sh, w1)

  abbrev pub with_report : Text → Text → Result (Unit {0}) × W → Text × W
  with_report cmd p (r, w) = (report cmd p r, w)

  unfoldable pub cmd_touch : Shell W → Option Text → W → Text × W
  unfolding normalize create_file report
  cmd_touch sh none w = (line_of (codes "touch: missing operand"), w)
  cmd_touch sh (some q) w =
      with_report (codes "touch") (normalize sh.cwd q) (create_file sh.vfs (normalize sh.cwd q) w)

  unfoldable pub cmd_mkdir : Shell W → Option Text → W → Text × W
  unfolding normalize create_dir report
  cmd_mkdir sh none w = (line_of (codes "mkdir: missing operand"), w)
  cmd_mkdir sh (some q) w =
      with_report (codes "mkdir") (normalize sh.cwd q) (create_dir sh.vfs (normalize sh.cwd q) w)

  unfoldable pub cmd_rm : Shell W → Option Text → W → Text × W
  unfolding normalize remove report
  cmd_rm sh none w = (line_of (codes "rm: missing operand"), w)
  cmd_rm sh (some q) w =
      with_report (codes "rm") (normalize sh.cwd q) (remove sh.vfs (normalize sh.cwd q) w)

  unfoldable pub cmd_write : Shell W → List Text → W → Text × W
  unfolding normalize write_file report join_words
  cmd_write sh [] w = (line_of (codes "write: missing operand: <path> <text...>"), w)
  cmd_write sh (q ∷ args) w =
      with_report (codes "write") (normalize sh.cwd q)
        (write_file sh.vfs (normalize sh.cwd q) (line_of (join_words args)) w)

module _ (is_utf8 : Text → Bool) where
  unfoldable pub show_contents : Text → Text
  unfolding latin1
  show_contents bytes =
      let s = if is_utf8 bytes then bytes else latin1 bytes in
      if ends_with_newline s then s else line_of s

  abbrev pub with_contents : {W : Type 0} → Text → Result Text × W → Text × W
  with_contents p (ok bytes, w) = (show_contents bytes, w)
  with_contents p (err e, w) = (failed_cat e p, w)

  unfoldable pub cmd_cat : {W : Type 0} → Shell W → Option Text → W → Text × W
  unfolding normalize read_file show_contents
  cmd_cat sh none w = (line_of (codes "cat: missing operand"), w)
  cmd_cat sh (some q) w =
      with_contents (normalize sh.cwd q) (read_file sh.vfs (normalize sh.cwd q) w)

module _ {W : Type 0} where
  -- A reply of a command that leaves the shell as it is.
  abbrev pub keep : Shell W → Text × W → Option Text × Shell W × W
  keep sh (out, w) = (some out, sh, w)

  abbrev pub keep_ls : Shell W → Option Text × W → Option Text × Shell W × W
  keep_ls sh (out, w) = (out, sh, w)

  abbrev pub moved : Text × Shell W × W → Option Text × Shell W × W
  moved (out, sh, w) = (some out, sh, w)

module _ {W : Type 0} (ticks : W → ℕ) (is_utf8 : Text → Bool) where
  unfoldable pub run_command : Shell W → Command → List Text → W → Option Text × Shell W × W
  unfolding cmd_ls cmd_cd cmd_cat cmd_touch cmd_mkdir cmd_rm cmd_write mount_lines join_words
      list_mounts decimal
  run_command sh on_pwd args w = keep sh (line_of sh.cwd, w)
  run_command sh on_ls args w = keep_ls sh (cmd_ls sh (first_of args) w)
  run_command sh on_cd args w = moved (cmd_cd sh (first_of args) w)
  run_command sh on_cat args w = keep sh (cmd_cat is_utf8 sh (first_of args) w)
  run_command sh on_echo args w = keep sh (line_of (join_words args), w)
  run_command sh on_clear args w = keep sh (clear_sentinel, w)
  run_command sh on_mount args w = keep sh (mount_lines (list_mounts sh.vfs.mounts), w)
  run_command sh on_uptime args w = keep sh (line_of (decimal (ticks w) ++ codes " ticks"), w)
  run_command sh on_touch args w = keep sh (cmd_touch sh (first_of args) w)
  run_command sh on_mkdir args w = keep sh (cmd_mkdir sh (first_of args) w)
  run_command sh on_rm args w = keep sh (cmd_rm sh (first_of args) w)
  run_command sh on_write args w = keep sh (cmd_write sh args w)
  run_command sh on_help args w = keep sh (help_text, w)
  run_command sh (on_other cmd) args w =
      keep sh (line_of (codes "willo: command not found: " ++ cmd), w)

  unfoldable pub execute_line : Shell W → Text → W → Option Text × Shell W × W
  unfolding run_command words_of command_of
  execute_line sh line w = elim (words_of line) [
    | [] ↦ (some [], sh, w)
    | cmd ∷ args ↦ run_command sh (command_of cmd) args w
  ]
