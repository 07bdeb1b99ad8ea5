-- ===== src/Vfs/Calls.antt =====
-- kernel/src/fs/mod.rs: the calls that `Vfs` passes on to the backend that owns a path, and the
-- directory listing with its mount points.
use willo_main.Prelude.{
  ℕ, Bool, true, false, ◌||◌, none, some, List, [], ◌∷◌, Text, codes, same, if◌then◌else◌, push,
}
use willo_main.Path.{is_empty, canonical_prefix, direct_child}
use willo_main.Fs.{Result, ok, err, Effect, FileSystem}
use willo_main.Vfs.{Mount, Vfs, mounted, resolve}

unfoldable pub shown_prefix : Text → Text
shown_prefix p = if is_empty p then codes "/" else p

-- `entries.iter().any(|e| e == child)`
unfoldable pub contains : List Text → Text → Bool
unfolding same
contains [] a = false
contains (x ∷ xs) a = same x a || contains xs a

-- One round of the loop that adds the child mounts.
unfoldable pub add_child : Text → List Text → Text → List Text
unfolding contains
add_child parent entries prefix = elim (direct_child parent prefix) [
  | none ↦ entries
  | some child ↦ if contains entries child then entries else push entries child
]

module _ {W : Type 0} where
  -- `mounts`, for the shell's `mount` command.
  unfoldable pub list_mounts : List (Mount W) → List (Text × Text)
  unfolding shown_prefix
  list_mounts [] = []
  list_mounts (m ∷ ms) = (shown_prefix m.prefix, m.fs.backing) ∷ list_mounts ms

  -- `let (fs, rel) = self.resolve(abs)?;` and the call of one method on `rel`.
  abbrev pub on_resolved :
      {A : Type 0} → Result (FileSystem W × Text) → (FileSystem W → Text → Effect W A) → Effect W A
  on_resolved (ok (fs, rel)) call w = call fs rel w
  on_resolved (err e) call w = (err e, w)

  unfoldable pub read_file : Vfs W → Text → Effect W Text
  unfolding resolve
  read_file v abs = on_resolved (resolve v abs) (λ fs rel. fs.read_file rel)

  unfoldable pub create_file : Vfs W → Text → Effect W (Unit {0})
  unfolding resolve
  create_file v abs = on_resolved (resolve v abs) (λ fs rel. fs.create_file rel)

  unfoldable pub write_file : Vfs W → Text → Text → Effect W (Unit {0})
  unfolding resolve
  write_file v abs bytes = on_resolved (resolve v abs) (λ fs rel. fs.write_file rel bytes)

  unfoldable pub append_file : Vfs W → Text → Text → Effect W (Unit {0})
  unfolding resolve
  append_file v abs bytes = on_resolved (resolve v abs) (λ fs rel. fs.append_file rel bytes)

  unfoldable pub create_dir : Vfs W → Text → Effect W (Unit {0})
  unfolding resolve
  create_dir v abs = on_resolved (resolve v abs) (λ fs rel. fs.create_dir rel)

  unfoldable pub remove : Vfs W → Text → Effect W (Unit {0})
  unfolding resolve
  remove v abs = on_resolved (resolve v abs) (λ fs rel. fs.remove rel)

  unfoldable pub read_at : Vfs W → Text → ℕ → Text → Effect W (ℕ × Text)
  unfolding resolve
  read_at v abs off buf = on_resolved (resolve v abs) (λ fs rel. fs.read_at rel off buf)

  unfoldable pub write_at : Vfs W → Text → ℕ → Text → Effect W ℕ
  unfolding resolve
  write_at v abs off buf = on_resolved (resolve v abs) (λ fs rel. fs.write_at rel off buf)

  unfoldable pub writable : Vfs W → Text → Bool
  unfolding resolve
  writable v abs = elim (resolve v abs) [ ok (fs, rel) ↦ fs.writable | err e ↦ false ]

  unfoldable pub backing : Vfs W → Text → Text
  unfolding resolve
  backing v abs = elim (resolve v abs) [ ok (fs, rel) ↦ fs.backing | err e ↦ codes "?" ]

  abbrev is_dir_of : Result (FileSystem W × Text) → W → Bool × W
  is_dir_of (ok (fs, rel)) w = fs.is_dir rel w
  is_dir_of (err e) w = (false, w)

  unfoldable pub is_dir : Vfs W → Text → W → Bool × W
  unfolding resolve mounted
  is_dir v abs w =
      if mounted (canonical_prefix abs) v.mounts then (true, w) else is_dir_of (resolve v abs) w

  unfoldable pub add_children : Text → List Text → List (Mount W) → List Text
  unfolding add_child
  add_children parent entries [] = entries
  add_children parent entries (m ∷ ms) = add_children parent (add_child parent entries m.prefix) ms

  abbrev with_children : Vfs W → Text → Result (List Text) → Result (List Text)
  with_children v abs (ok entries) = ok (add_children (canonical_prefix abs) entries v.mounts)
  with_children v abs (err e) = err e

  unfoldable pub list_dir : Vfs W → Text → Effect W (List Text)
  unfolding resolve add_children
  list_dir v abs w =
      let (entries, w') = on_resolved (resolve v abs) (λ fs rel. fs.list_dir rel) w in
      (with_children v abs entries, w')
