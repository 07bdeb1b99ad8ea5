-- ===== src/Vfs.antt =====
-- kernel/src/fs/mod.rs: the mount table `Vfs`, its path resolution, and the calls that it passes on
-- to the backends.
pub mod Calls
pub mod Under
pub mod Choice
pub mod Resolve
pub mod Table
use willo_main.Prelude.{
  ℕ, ◌+◌, Bool, true, false, ◌&&◌, ◌||◌, Option, none, some, List, [], ◌∷◌, ◌++◌, Text, codes, same,
  ltb, leb, ◌==◌, if◌then◌else◌, length, get_elem?, drop, push, ◌≢◌, ◌≡◌, ◌≤◌, All, ◌⊎◌,
}
use willo_main.Path.{
  slash, is_empty, starts_with_slash, strip_prefix, canonical_prefix, direct_child,
}
use willo_main.Path.Prefix.{ends_with_slash}
use willo_main.Fs.{
  FsError, not_found, not_a_dir, is_a_dir, io, unsupported, Result, ok, err, Effect, FileSystem,
}

abbrev pub max_mounts : ℕ
max_mounts = 8

-- `str::starts_with`
abbrev pub begins_with : Text → Text → Bool
begins_with s [] = true
begins_with [] (p ∷ ps) = false
begins_with (x ∷ s) (p ∷ ps) = x == p && begins_with s ps

-- `abs.as_bytes()[i] == b'/'`
abbrev pub slash_at : Text → ℕ → Bool
slash_at s i = elim (get_elem? s i) [ none ↦ false | some x ↦ x == slash ]

-- The test of `resolve` for a mount that is not the root.
unfoldable pub covers : Text → Text → Bool
unfolding same
covers abs prefix =
    same abs prefix
    || (ltb (length prefix) (length abs) && begins_with abs prefix && slash_at abs (length prefix))

-- `rel`
unfoldable pub relative_to : Text → Text → Text
relative_to prefix abs =
    if is_empty prefix
    then abs
    else let tail = drop (length prefix) abs in if is_empty tail then codes "/" else tail

module _ (W : Type 0) where
  pub record Mount : Type 0 where
    pub prefix : Text
    pub fs : FileSystem W

  pub record Vfs : Type 0 where
    pub mounts : List Mount

module _ {W : Type 0} where
  unfoldable pub new : Vfs W
  new = record { mounts = [] }

  -- `mounts.iter().any(|m| m.prefix == canonical)`
  unfoldable pub mounted : Text → List (Mount W) → Bool
  unfolding same
  mounted p [] = false
  mounted p (m ∷ ms) = same m.prefix p || mounted p ms

  unfoldable pub mount : Vfs W → Text → FileSystem W → Result (Unit {0}) × Vfs W
  unfolding mounted
  mount v prefix fs =
      if leb max_mounts (length v.mounts)
      then (err unsupported, v)
      else if starts_with_slash prefix
      then (let canonical = canonical_prefix prefix in
          if mounted canonical v.mounts
          then (err io, v)
          else (ok tt, record { mounts = push v.mounts (record { prefix = canonical; fs = fs }) }))
      else (err io, v)

  -- `position` and `Vec::remove` together: without the first mount of that prefix, if there is one.
  unfoldable pub remove_mount : Text → List (Mount W) → List (Mount W)
  unfolding same
  remove_mount p [] = []
  remove_mount p (m ∷ ms) = if same m.prefix p then ms else m ∷ remove_mount p ms

  unfoldable pub unmount : Vfs W → Text → Result (Unit {0}) × Vfs W
  unfolding mounted remove_mount
  unmount v prefix =
      let canonical = canonical_prefix prefix in
      if mounted canonical v.mounts
      then (ok tt, record { mounts = remove_mount canonical v.mounts })
      else (err not_found, v)

  -- `best.is_none_or(|b| b.prefix.len() < m.prefix.len())`
  abbrev pub is_shorter : Option (Mount W) → Mount W → Bool
  is_shorter none m = true
  is_shorter (some b) m = ltb (length b.prefix) (length m.prefix)

  abbrev pub is_none : Option (Mount W) → Bool
  is_none none = true
  is_none (some b) = false

  -- The body of the loop of `resolve`.
  unfoldable pub better : Text → Option (Mount W) → Mount W → Option (Mount W)
  unfolding covers
  better abs best m =
      if is_empty m.prefix
      then (if is_none best then some m else best)
      else if covers abs m.prefix
      then (if is_shorter best m then some m else best)
      else best

  unfoldable pub best_mount : Text → Option (Mount W) → List (Mount W) → Option (Mount W)
  unfolding better
  best_mount abs best [] = best
  best_mount abs best (m ∷ ms) = best_mount abs (better abs best m) ms

  abbrev pub resolved : Text → Option (Mount W) → Result (FileSystem W × Text)
  resolved abs none = err not_found
  resolved abs (some m) = ok (m.fs, relative_to m.prefix abs)

  unfoldable pub resolve : Vfs W → Text → Result (FileSystem W × Text)
  unfolding best_mount relative_to
  resolve v abs =
      if starts_with_slash abs then resolved abs (best_mount abs none v.mounts) else err not_found
