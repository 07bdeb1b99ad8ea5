-- ===== src/Ram.antt =====
-- kernel/src/fs/ram.rs: the read-only fallback file system and its seed tree. A special file is
-- computed at each read, from what its callback reads: `uptime_text` reads the timer ticks.
use willo_main.Prelude.{
  ℕ, Bool, true, false, Option, none, some, List, [], ◌∷◌, ◌++◌, Text, codes, same, if◌then◌else◌,
}
use willo_main.Path.{segments}
use willo_main.Bytes.{decimal}
use willo_main.Fs.{
  not_found, not_a_dir, is_a_dir, Result, ok, err, ◌>>=◌, FileSystem, refuse, read_at_default,
}

-- `Node`; the callback of a special file is a function of the tick counter.
mutual
  pub data Node : Type 0 where
    file : Text → Node
    special : (ℕ → Text) → Node
    dir : Entries → Node

  pub data Entries : Type 0 where
    end : Entries
    entry : Text → Node → Entries → Entries

unfoldable pub get : Text → Entries → Option Node
unfolding same
get k end = none
get k (entry j n rest) = if same j k then some n else get k rest

unfoldable pub keys : Entries → List Text
keys end = []
keys (entry j m rest) = j ∷ keys rest

unfoldable pub lookup : Node → List Text → Result Node
unfolding get
lookup n [] = ok n
lookup (file b) (s ∷ ss) = err not_a_dir
lookup (special f) (s ∷ ss) = err not_a_dir
lookup (dir d) (s ∷ ss) = elim (get s d) [ none ↦ err not_found | some n ↦ lookup n ss ]

abbrev contents : ℕ → Node → Result Text
contents ticks (file b) = ok b
contents ticks (special f) = ok (f ticks)
contents ticks (dir d) = err is_a_dir

abbrev names : Node → Result (List Text)
names (file b) = err not_a_dir
names (special f) = err not_a_dir
names (dir d) = ok (keys d)

unfoldable pub read_file : Node → Text → ℕ → Result Text
unfolding segments lookup
read_file root abs ticks = lookup root (segments abs) >>= contents ticks

unfoldable pub list_dir : Node → Text → Result (List Text)
unfolding segments lookup keys
list_dir root abs = lookup root (segments abs) >>= names

unfoldable pub is_dir : Node → Text → Bool
unfolding segments lookup
is_dir root abs = elim (lookup root (segments abs)) [ ok (dir d) ↦ true | _ ↦ false ]

-- `format!("{} ticks\n", ticks())`
unfoldable pub uptime_text : ℕ → Text
unfolding decimal
uptime_text ticks = decimal ticks ++ (codes " ticks" ++ (10 ∷ []))

-- `seed`, its maps in the order of their keys.
unfoldable pub seed : Node
unfolding uptime_text
seed = dir (
    entry (codes "bin") (dir end) (
      entry (codes "etc")
        (dir (
          entry (codes "motd") (file (codes "the kernel that fits in your head" ++ (10 ∷ [])))
            (entry (codes "version") (file (codes "willo 0.9 (M9)" ++ (10 ∷ []))) end)))
        (entry (codes "proc") (dir (entry (codes "uptime") (special uptime_text) end)) (
          entry (codes "welcome.txt")
            (file (codes "Welcome to Willo!" ++ (10 ∷ (codes "Type `help`." ++ (10 ∷ []))))) end))))

-- The trait's methods; those that `RamFs` does not give are the defaults.
module _ {W : Type 0} (root : Node) (ticks : W → ℕ) where
  unfoldable pub ramfs : FileSystem W
  unfolding read_file list_dir is_dir read_at_default
  ramfs = record {
    read_file = λ rel w. (read_file root rel (ticks w), w);
    list_dir = λ rel w. (list_dir root rel, w);
    is_dir = λ rel w. (is_dir root rel, w);
    writable = false;
    backing = codes "ramfs (no data disk)";
    create_file = λ rel. refuse;
    write_file = λ rel bytes. refuse;
    append_file = λ rel bytes. refuse;
    create_dir = λ rel. refuse;
    remove = λ rel. refuse;
    read_at = read_at_default (λ rel w. (read_file root rel (ticks w), w));
    write_at = λ rel off bytes. refuse;
  }
