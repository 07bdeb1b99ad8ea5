-- ===== src/Shell/Lines.antt =====
-- kernel/src/shell.rs: the words of a command line, and the texts that the commands reply with.
use willo_main.Prelude.{
  ℕ, Bool, false, ◌||◌, Option, none, some, List, [], ◌∷◌, ◌++◌, Text, codes, ◌==◌, if◌then◌else◌,
  push,
}
use willo_main.Fs.{FsError, not_found, not_a_dir, is_a_dir, io, unsupported, Result, ok, err}
use willo_main.Bytes.{compare_text, before, equal, after}
use willo_main.Fat.{char_of_byte}

-- `is_ascii_whitespace`
abbrev pub is_space : ℕ → Bool
is_space c = c == 32 || (c == 9 || (c == 10 || (c == 12 || c == 13)))

abbrev pub cons_word : Text → List Text → List Text
cons_word [] words = words
cons_word (c ∷ word) words = (c ∷ word) ∷ words

-- The word that is being read, and the words behind it.
unfoldable pub scan_words : Text → Text × List Text
scan_words [] = ([], [])
scan_words (c ∷ line) =
    let (word, words) = scan_words line in
    if is_space c then ([], cons_word word words) else (c ∷ word, words)

-- `split_ascii_whitespace`
unfoldable pub words_of : Text → List Text
unfolding scan_words
words_of line = let (word, words) = scan_words line in cons_word word words

-- `join(" ")`
unfoldable pub join_words : List Text → Text
join_words [] = []
join_words (s ∷ []) = s
join_words (s ∷ t ∷ ss) = s ++ (32 ∷ join_words (t ∷ ss))

-- `sort`
unfoldable pub insert_text : Text → List Text → List Text
unfolding compare_text
insert_text s [] = s ∷ []
insert_text s (t ∷ ts) =
    let rest = insert_text s ts in
    elim (compare_text s t) [ before ↦ s ∷ t ∷ ts | equal ↦ s ∷ t ∷ ts | after ↦ t ∷ rest ]

unfoldable pub sort_texts : List Text → List Text
unfolding insert_text
sort_texts [] = []
sort_texts (s ∷ ss) = insert_text s (sort_texts ss)

abbrev pub newline : ℕ
newline = 10

abbrev pub line_of : Text → Text
line_of s = push s newline

-- `"\x1bCLR"`
abbrev pub clear_sentinel : Text
clear_sentinel = 27 ∷ codes "CLR"

abbrev pub help_text : Text
help_text =
    codes "willo shell "
    ++ (0xE2 ∷ 0x80 ∷ 0x94 ∷ [])
    ++ codes " built-in commands:\n"
    ++ codes "  pwd                  print working directory\n"
    ++ codes "  ls [path]            list entries in path (or cwd)\n"
    ++ codes "  cd <path>            change directory\n"
    ++ codes "  cat <path>           print file contents\n"
    ++ codes "  echo <text>          echo arguments\n"
    ++ codes "  clear                clear the screen\n"
    ++ codes "  mount                show what is mounted at /\n"
    ++ codes "  uptime               show timer ticks since boot\n"
    ++ codes "  touch <path>         create empty file (or truncate)\n"
    ++ codes "  mkdir <path>         create directory\n"
    ++ codes "  rm <path>            delete file or empty directory\n"
    ++ codes "  write <path> <text>  overwrite file with text\n"
    ++ codes "  help                 show this help\n"

-- `{e:?}`
unfoldable pub debug_name : FsError → Text
debug_name not_found = codes "NotFound"
debug_name not_a_dir = codes "NotADir"
debug_name is_a_dir = codes "IsADir"
debug_name io = codes "Io"
debug_name unsupported = codes "Unsupported"

-- The match of `touch`, `mkdir`, `rm` and `write` on the result.
unfoldable pub report : Text → Text → Result (Unit {0}) → Text
unfolding debug_name
report cmd p (ok a) = []
report cmd p (err unsupported) = line_of (cmd ++ codes ": read-only filesystem")
report cmd p (err e) = line_of (cmd ++ codes ": " ++ p ++ codes ": " ++ debug_name e)

-- `bytes` as characters of their own, where they are no UTF-8.
unfoldable pub latin1 : Text → Text
latin1 [] = []
latin1 (b ∷ bytes) = char_of_byte b (latin1 bytes)

abbrev pub ends_with_newline : Text → Bool
ends_with_newline [] = false
ends_with_newline (c ∷ []) = c == newline
ends_with_newline (c ∷ d ∷ s) = ends_with_newline (d ∷ s)

abbrev pub first_of : List Text → Option Text
first_of [] = none
first_of (a ∷ rest) = some a
