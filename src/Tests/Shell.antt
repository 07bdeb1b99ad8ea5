-- ===== src/Tests/Shell.antt =====
-- Command lines (kernel/src/shell.rs) over a tmpfs at the root.
use willo_main.Prelude.{
  List, ℕ, ◌≡◌, refl, true, Bool, some, [], ◌∷◌, ◌++◌, map, Text, codes, arith,
}
use willo_main.Path.{IsCanonical, render, canonical_prefix, direct_child}
use willo_main.Tmp.{Node, file, dir, end, entry, tmpfs}
use willo_main.Shell.{first_of, Shell, execute_line, newline}
use willo_main.Shell.Loop.{Session, unicode, on_keys, behind, both, finish_line}
use willo_main.Shell.Typing.{IsLine, echo, on_keys-typed, on_keys-IsLine}
use willo_main.Shell.Render.{IsReply, Runs, IsFileTarget, execute_line-IsReply}
use willo_main.Shell.WorkingDir.{execute_line-IsCanonical}

abbrev tree : Node
tree = dir (entry (codes "d") (dir (entry (codes "x") (file []) end)) end)

abbrev shell : Shell Node
shell = record {
  vfs = record { mounts = record { prefix = []; fs = tmpfs (λ n. n) (λ n w. n) } ∷ [] };
  cwd = codes "/";
}

abbrev clock : Node → ℕ
clock n = 7

abbrev any_utf8 : Text → Bool
any_utf8 s = true

root-IsCanonical : IsCanonical (codes "/")
unfolding render
root-IsCanonical = ([], tt, refl)

execute_line-IsCanonical_example :
    IsCanonical (execute_line clock any_utf8 shell (codes "cd d") tree).1.cwd
    × ((execute_line clock any_utf8 shell (codes "cd d") tree).1.vfs ≡ shell.vfs)
execute_line-IsCanonical_example =
    execute_line-IsCanonical clock any_utf8 shell (codes "cd d") tree root-IsCanonical

cd_run : (execute_line clock any_utf8 shell (codes "cd d") tree).1.cwd ≡ codes "/d"
unfolding execute_line tmpfs canonical_prefix
cd_run = refl

ls_run : (execute_line clock any_utf8 shell (codes " ls  d ") tree).0 ≡ some (codes "x\n")
unfolding execute_line tmpfs canonical_prefix direct_child
ls_run = refl

execute_line-IsReply_example :
    IsReply
      ((args : List Text) × Runs clock any_utf8 (codes "ls") (codes "ls d") args
        × IsFileTarget clock any_utf8 shell (first_of args) tree)
      ((args : List Text) × Runs clock any_utf8 (codes "clear") (codes "ls d") args)
      (execute_line clock any_utf8 shell (codes "ls d") tree).0
execute_line-IsReply_example = execute_line-IsReply clock any_utf8 shell (codes "ls d") tree

abbrev session : Session Node
session = record { shell = shell; line = []; world = tree }

typed-IsLine : IsLine (codes "cd d")
typed-IsLine = record { short = omega arith; printable = (refl, (refl, (refl, (refl, tt)))) }

empty-IsLine : IsLine []
empty-IsLine = record { short = omega arith; printable = tt }

on_keys-typed_example :
    on_keys clock any_utf8 (map unicode (codes "cd d") ++ (unicode newline ∷ [])) session
    ≡ behind
        (echo (codes "cd d"))
        (finish_line clock any_utf8 (execute_line clock any_utf8 shell (codes "cd d") tree))
on_keys-typed_example = on_keys-typed clock any_utf8 (codes "cd d") session typed-IsLine refl

key_run :
    on_keys clock any_utf8 (unicode 65 ∷ unicode 9 ∷ unicode 66 ∷ unicode 127 ∷ []) session
    ≡ some (
      record session { line = 65 ∷ [] },
      both (65 ∷ []) ++ (both (66 ∷ []) ++ both (8 ∷ 32 ∷ 8 ∷ [])),
    )
unfolding on_keys
key_run = refl

on_keys-IsLine_example : IsLine (65 ∷ [])
on_keys-IsLine_example =
    on_keys-IsLine clock any_utf8 (unicode 65 ∷ unicode 9 ∷ unicode 66 ∷ unicode 127 ∷ []) session
      (record session { line = 65 ∷ [] })
      (both (65 ∷ []) ++ (both (66 ∷ []) ++ both (8 ∷ 32 ∷ 8 ∷ []))) empty-IsLine key_run
