-- ===== src/Shell/Render.antt =====
-- The output of a command line (kernel/src/shell.rs).
use willo_main.Prelude.{
  ℕ, sym, ap, ◌∙◌, same, same→eq, ◌≡◌, ◌⊎◌, inl, inr, refl, Bool, true, Option, none, some, List,
  [], ◌∷◌, ◌++◌, Text, codes, if◌then◌else◌, Bool-cases, List-cases, if_both, append_assoc, subst,
}
use willo_main.Path.{slash, trim_end, normalize}
use willo_main.Fs.{FsError, not_found, not_a_dir, is_a_dir, io, unsupported, Result, ok, err}
use willo_main.Bytes.{decimal}
use willo_main.Vfs.{Vfs}
use willo_main.Vfs.Calls.{
  list_mounts, read_file, list_dir, is_dir, create_file, create_dir, remove, write_file,
}
use willo_main.Shell.{
  Shell, Command, command_of, on_pwd, on_ls, on_cd, on_cat, on_echo, on_clear, on_mount, on_uptime,
  on_touch, on_mkdir, on_rm, on_write, on_help, on_other, target_of, words_of, ends_with_newline,
  newline, line_of, report, clear_sentinel, show_entries, show_contents, mount_lines, cmd_ls,
  cmd_cd, cmd_cat, cmd_touch, cmd_mkdir, cmd_rm, cmd_write, run_command, execute_line, first_of,
  join_words, failed_ls, failed_cat, with_entries, with_contents, sort_texts, latin1, help_text,
}

-- Nothing, or text that ends with a newline.
abbrev pub IsLines : Text → Type 0
IsLines s = (s ≡ []) ⊎ (ends_with_newline s ≡ true)

-- A reply: none, a panic, only where `A` holds, the sentinel of `clear` only where `B` holds, and
-- otherwise text as above.
abbrev pub IsReply : Type 0 → Type 0 → Option Text → Type 0
IsReply A B none = A
IsReply A B (some s) = IsLines s ⊎ (B × (s ≡ clear_sentinel))

IsReply-weaken :
    {A B C D : Type 0} (r : Option Text) → (A → C) → (B → D) → IsReply A B r → IsReply C D r
IsReply-weaken none f g h = f h
IsReply-weaken (some s) f g (inl h) = inl h
IsReply-weaken (some s) f g (inr (b, e)) = inr (g b, e)

-- The word that runs ls or clear.
abbrev IsNamed : Command → Text → Type 0
IsNamed on_ls cmd = cmd ≡ codes "ls"
IsNamed on_clear cmd = cmd ≡ codes "clear"
IsNamed on_pwd cmd = Unit
IsNamed on_cd cmd = Unit
IsNamed on_cat cmd = Unit
IsNamed on_echo cmd = Unit
IsNamed on_mount cmd = Unit
IsNamed on_uptime cmd = Unit
IsNamed on_touch cmd = Unit
IsNamed on_mkdir cmd = Unit
IsNamed on_rm cmd = Unit
IsNamed on_write cmd = Unit
IsNamed on_help cmd = Unit
IsNamed (on_other name) cmd = Unit

test-IsNamed :
    (cmd name : Text) (x y : Command)
    → (cmd ≡ name → IsNamed x cmd)
    → IsNamed y cmd
    → IsNamed (if same cmd name then x else y) cmd
test-IsNamed cmd name x y h k = elim (Bool-cases (same cmd name)) [
  | inl e ↦ rw e (h (same→eq cmd name e))
  | inr e ↦ rw e k
]

command_of-IsNamed : (cmd : Text) → IsNamed (command_of cmd) cmd
unfolding command_of
command_of-IsNamed cmd =
    test-IsNamed cmd (codes "pwd") on_pwd _ (λ e. tt)
      (test-IsNamed cmd (codes "ls") on_ls _ (λ e. e)
        (test-IsNamed cmd (codes "cd") on_cd _ (λ e. tt)
          (test-IsNamed cmd (codes "cat") on_cat _ (λ e. tt)
            (test-IsNamed cmd (codes "echo") on_echo _ (λ e. tt)
              (test-IsNamed cmd (codes "clear") on_clear _ (λ e. e)
                (if_both (λ c. IsNamed c cmd) (same cmd (codes "mount")) tt
                  (if_both (λ c. IsNamed c cmd) (same cmd (codes "uptime")) tt
                    (if_both (λ c. IsNamed c cmd) (same cmd (codes "touch")) tt
                      (if_both (λ c. IsNamed c cmd) (same cmd (codes "mkdir")) tt
                        (if_both (λ c. IsNamed c cmd) (same cmd (codes "rm")) tt
                          (if_both (λ c. IsNamed c cmd) (same cmd (codes "write")) tt
                            (if_both (λ c. IsNamed c cmd) (same cmd (codes "help")) tt
                              tt))))))))))))

ends_with_newline-append :
    (s t : Text) → ends_with_newline t ≡ true → ends_with_newline (s ++ t) ≡ true
ends_with_newline-append [] t h = h
ends_with_newline-append (c ∷ []) [] h = cc
ends_with_newline-append (c ∷ []) (d ∷ t) h = h
ends_with_newline-append (c ∷ d ∷ s) t h = ends_with_newline-append (d ∷ s) t h

line_of-IsLines : (s : Text) → IsLines (line_of s)
line_of-IsLines s = inr (ends_with_newline-append s (newline ∷ []) refl)

newline-IsLines : (s : Text) → IsLines s → IsLines (newline ∷ s)
newline-IsLines [] h = inr refl
newline-IsLines (c ∷ s) (inl e) = cc
newline-IsLines (c ∷ s) (inr e) = inr e

newline_ends : (s : Text) → IsLines s → ends_with_newline (newline ∷ s) ≡ true
newline_ends [] h = refl
newline_ends (c ∷ s) (inl e) = cc
newline_ends (c ∷ s) (inr e) = e

append-IsLines : (s t : Text) → IsLines (newline ∷ t) → IsLines (s ++ (newline ∷ t))
append-IsLines s t (inl e) = cc
append-IsLines s t (inr e) = inr (ends_with_newline-append s (newline ∷ t) e)

report-IsLines : (cmd p : Text) (r : Result (Unit {0})) → IsLines (report cmd p r)
unfolding report
report-IsLines cmd p (ok a) = inl refl
report-IsLines cmd p (err unsupported) = line_of-IsLines _
report-IsLines cmd p (err not_found) = line_of-IsLines _
report-IsLines cmd p (err not_a_dir) = line_of-IsLines _
report-IsLines cmd p (err is_a_dir) = line_of-IsLines _
report-IsLines cmd p (err io) = line_of-IsLines _

mount_lines-IsLines : (ms : List (Text × Text)) → IsLines (mount_lines ms)
unfolding mount_lines
mount_lines-IsLines [] = inl refl
mount_lines-IsLines ((prefix, backing) ∷ ms) =
    let e = newline_ends (mount_lines ms) (mount_lines-IsLines ms) in
    inr (
      ends_with_newline-append prefix _ (
        ends_with_newline-append (codes " on ") (backing ++ (newline ∷ mount_lines ms))
          (ends_with_newline-append backing (newline ∷ mount_lines ms) e)))

help_text-IsLines : IsLines help_text
help_text-IsLines = inr refl

module _ {W : Type 0} (ticks : W → ℕ) (is_utf8 : Text → Bool) where
  show_entries-IsLines :
      (v : Vfs W) (target : Text) (names : List Text) (w : W)
      → IsLines (show_entries v target names w).0
  unfolding show_entries
  show_entries-IsLines v target [] w = inl refl
  show_entries-IsLines v target (name ∷ names) w =
      let (d, w1) = is_dir v (trim_end target ++ (slash ∷ name)) w in
      let (rest, w2) = show_entries v target names w1 in
      subst IsLines (append_assoc name (if d then slash ∷ [] else []) (newline ∷ rest)) (
        append-IsLines (name ++ (if d then slash ∷ [] else [])) rest
          (newline-IsLines rest (show_entries-IsLines v target names w1)))

  show_contents-IsLines : (bytes : Text) → IsLines (show_contents is_utf8 bytes)
  unfolding show_contents
  show_contents-IsLines bytes =
      elim (Bool-cases (ends_with_newline (if is_utf8 bytes then bytes else latin1 bytes))) [
        | inl e ↦ rw e (inr e)
        | inr e ↦ rw e (line_of-IsLines _)
      ]

  failed_ls-IsReply :
      (B : Type 0) (e : FsError) (p : Text) → IsReply (e ≡ is_a_dir) B (failed_ls e p)
  failed_ls-IsReply B not_found p = inl (line_of-IsLines (codes "ls: not found: " ++ p))
  failed_ls-IsReply B not_a_dir p = inl (line_of-IsLines (codes "ls: not a directory: " ++ p))
  failed_ls-IsReply B is_a_dir p = refl
  failed_ls-IsReply B io p = inl (line_of-IsLines (codes "ls: i/o error: " ++ p))
  failed_ls-IsReply B unsupported p = inl (line_of-IsLines (codes "ls: unsupported: " ++ p))

  with_entries-IsReply :
      (B : Type 0) (v : Vfs W) (target : Text) (r : Result (List Text) × W)
      → IsReply (r.0 ≡ err is_a_dir) B (with_entries v target r).0
  with_entries-IsReply B v target (ok entries, w) =
      inl (show_entries-IsLines v target (sort_texts entries) w)
  with_entries-IsReply B v target (err e, w) =
      IsReply-weaken (failed_ls e target) (ap err) (λ b. b) (failed_ls-IsReply B e target)

  -- What makes ls panic: its target is listed as a file.
  abbrev pub IsFileTarget : Shell W → Option Text → W → Type 0
  IsFileTarget sh path w = (list_dir sh.vfs (target_of sh.cwd sh.cwd path) w).0 ≡ err is_a_dir

  cmd_ls-IsReply :
      (B : Type 0) (sh : Shell W) (path : Option Text) (w : W)
      → IsReply (IsFileTarget sh path w) B (cmd_ls sh path w).0
  unfolding cmd_ls
  cmd_ls-IsReply B sh path w =
      with_entries-IsReply B sh.vfs (target_of sh.cwd sh.cwd path)
        (list_dir sh.vfs (target_of sh.cwd sh.cwd path) w)

  failed_cat-IsLines : (e : FsError) (p : Text) → IsLines (failed_cat e p)
  failed_cat-IsLines not_found p = line_of-IsLines (codes "cat: not found: " ++ p)
  failed_cat-IsLines is_a_dir p = line_of-IsLines (codes "cat: is a directory: " ++ p)
  failed_cat-IsLines not_a_dir p = line_of-IsLines (codes "cat: not a directory: " ++ p)
  failed_cat-IsLines io p = line_of-IsLines (codes "cat: i/o error: " ++ p)
  failed_cat-IsLines unsupported p = line_of-IsLines (codes "cat: unsupported: " ++ p)

  with_contents-IsLines : (p : Text) (r : Result Text × W) → IsLines (with_contents is_utf8 p r).0
  with_contents-IsLines p (ok bytes, w) = show_contents-IsLines bytes
  with_contents-IsLines p (err e, w) = failed_cat-IsLines e p

  cmd_cat-IsLines :
      (sh : Shell W) (path : Option Text) (w : W) → IsLines (cmd_cat is_utf8 sh path w).0
  unfolding cmd_cat
  cmd_cat-IsLines sh none w = line_of-IsLines (codes "cat: missing operand")
  cmd_cat-IsLines sh (some q) w =
      with_contents-IsLines (normalize sh.cwd q) (read_file sh.vfs (normalize sh.cwd q) w)

  cmd_touch-IsLines : (sh : Shell W) (path : Option Text) (w : W) → IsLines (cmd_touch sh path w).0
  unfolding cmd_touch
  cmd_touch-IsLines sh none w = line_of-IsLines (codes "touch: missing operand")
  cmd_touch-IsLines sh (some q) w =
      report-IsLines (codes "touch") (normalize sh.cwd q)
        (create_file sh.vfs (normalize sh.cwd q) w).0

  cmd_mkdir-IsLines : (sh : Shell W) (path : Option Text) (w : W) → IsLines (cmd_mkdir sh path w).0
  unfolding cmd_mkdir
  cmd_mkdir-IsLines sh none w = line_of-IsLines (codes "mkdir: missing operand")
  cmd_mkdir-IsLines sh (some q) w =
      report-IsLines (codes "mkdir") (normalize sh.cwd q)
        (create_dir sh.vfs (normalize sh.cwd q) w).0

  cmd_rm-IsLines : (sh : Shell W) (path : Option Text) (w : W) → IsLines (cmd_rm sh path w).0
  unfolding cmd_rm
  cmd_rm-IsLines sh none w = line_of-IsLines (codes "rm: missing operand")
  cmd_rm-IsLines sh (some q) w =
      report-IsLines (codes "rm") (normalize sh.cwd q) (remove sh.vfs (normalize sh.cwd q) w).0

  cmd_write-IsLines : (sh : Shell W) (args : List Text) (w : W) → IsLines (cmd_write sh args w).0
  unfolding cmd_write
  cmd_write-IsLines sh [] w = line_of-IsLines (codes "write: missing operand: <path> <text...>")
  cmd_write-IsLines sh (q ∷ args) w =
      report-IsLines (codes "write") (normalize sh.cwd q)
        (write_file sh.vfs (normalize sh.cwd q) (line_of (join_words args)) w).0

  cmd_cd-IsLines : (sh : Shell W) (path : Option Text) (w : W) → IsLines (cmd_cd sh path w).0
  unfolding cmd_cd
  cmd_cd-IsLines sh path w =
      if_both {A = Text × Shell W × W} (λ r. IsLines r.0)
        (is_dir sh.vfs (target_of sh.cwd (codes "/") path) w).0 (inl refl)
        (line_of-IsLines (codes "cd: not a directory: " ++ target_of sh.cwd (codes "/") path))

  run_command-IsReply :
      (sh : Shell W) (cmd : Command) (args : List Text) (w : W)
      → IsReply
          ((cmd ≡ on_ls) × IsFileTarget sh (first_of args) w)
          (cmd ≡ on_clear)
          (run_command ticks is_utf8 sh cmd args w).0
  unfolding run_command
  run_command-IsReply sh on_pwd args w = inl (line_of-IsLines sh.cwd)
  run_command-IsReply sh on_ls args w =
      IsReply-weaken (cmd_ls sh (first_of args) w).0 (λ h. (refl, h)) (λ b. b)
        (cmd_ls-IsReply (on_ls ≡ on_clear) sh (first_of args) w)
  run_command-IsReply sh on_cd args w = inl (cmd_cd-IsLines sh (first_of args) w)
  run_command-IsReply sh on_cat args w = inl (cmd_cat-IsLines sh (first_of args) w)
  run_command-IsReply sh on_echo args w = inl (line_of-IsLines (join_words args))
  run_command-IsReply sh on_clear args w = inr (refl, refl)
  run_command-IsReply sh on_mount args w = inl (mount_lines-IsLines (list_mounts sh.vfs.mounts))
  run_command-IsReply sh on_uptime args w =
      inl (line_of-IsLines (decimal (ticks w) ++ codes " ticks"))
  run_command-IsReply sh on_touch args w = inl (cmd_touch-IsLines sh (first_of args) w)
  run_command-IsReply sh on_mkdir args w = inl (cmd_mkdir-IsLines sh (first_of args) w)
  run_command-IsReply sh on_rm args w = inl (cmd_rm-IsLines sh (first_of args) w)
  run_command-IsReply sh on_write args w = inl (cmd_write-IsLines sh args w)
  run_command-IsReply sh on_help args w = inl help_text-IsLines
  run_command-IsReply sh (on_other cmd) args w =
      inl (line_of-IsLines (codes "willo: command not found: " ++ cmd))

  -- The command line runs the command of that name.
  abbrev pub Runs : Text → Text → List Text → Type 0
  Runs name line args = words_of line ≡ name ∷ args

  -- The reply to a command line is empty, ends with a newline, or is the sentinel of clear, which
  -- only a line that runs clear gets; and only a line that runs ls panics, where the mount table's
  -- list_dir of its target gives the error IsADir.
  pub execute_line-IsReply :
      (sh : Shell W) (line : Text) (w : W)
      → IsReply
          ((args : List Text) × Runs (codes "ls") line args × IsFileTarget sh (first_of args) w)
          ((args : List Text) × Runs (codes "clear") line args)
          (execute_line ticks is_utf8 sh line w).0
  unfolding execute_line
  execute_line-IsReply sh line w = elim (List-cases (words_of line)) [
    | inl e ↦ rw (execute_line, e) (inl (inl refl))
    | inr (cmd, args, e) ↦
        let named = command_of-IsNamed cmd in
        let first = λ (name : Text) (same_name : cmd ≡ name). e ∙ ap (λ c. c ∷ args) same_name in
        subst
          (λ ws.
            IsReply
              ((args : List Text) × Runs (codes "ls") line args × IsFileTarget sh (first_of args) w)
              ((args : List Text) × Runs (codes "clear") line args)
              (elim ws as (λ x. Option Text × Shell W × W) [
                | [] ↦ (some [], sh, w)
                | cmd ∷ args ↦ run_command ticks is_utf8 sh (command_of cmd) args w
              ]).0)
          (sym e)
          (IsReply-weaken (run_command ticks is_utf8 sh (command_of cmd) args w).0
            (λ (is_ls, h). (args, first (codes "ls") (subst (λ c. IsNamed c cmd) is_ls named), h))
            (λ is_clear. (args, first (codes "clear") (subst (λ c. IsNamed c cmd) is_clear named)))
            (run_command-IsReply sh (command_of cmd) args w))
  ]
