-- ===== src/Boot/Scratch.antt =====
-- Files under `/tmp` after boot: the calls of `Vfs` (kernel/src/fs/mod.rs) down to the tree of
-- kernel/src/fs/tmp.rs.
use willo_main.Prelude.{
  ◌≡◌, refl, sym, ◌∙◌, ap, Text, ◌++◌, codes, true, ltb, lt→ltb, length, arith,
}
use willo_main.Fs.{FileSystem, Result, ok, err}
use willo_main.Vfs.{resolve, covers, better, best_mount}
use willo_main.Vfs.Calls.{read_file, write_file, on_resolved}
use willo_main.Tmp.{tmpfs, store}
use willo_main.Tmp as Tmp
use willo_main.Tmp.Files as Files
use willo_main.Boot.{Machine, boot_table}

module _ {W : Type 0} (machine : Machine W) where
  abbrev tmp_fs : FileSystem W
  tmp_fs = tmpfs machine.tree machine.put_tree

  resolve-tmp :
      (root : FileSystem W) (rel : Text)
      → resolve (boot_table machine root) (codes "/tmp/" ++ rel) ≡ ok (tmp_fs, codes "/" ++ rel)
  unfolding resolve
  resolve-tmp root rel =
      let long : ltb 4 (length (codes "/tmp/" ++ rel)) ≡ true = lt→ltb _ _ (omega arith) in
      rw (resolve, best_mount, better, covers, long) refl

  store-ok :
      (r : Result Tmp.Node) (w w' : W)
      → store machine.tree machine.put_tree r w ≡ (ok tt, w')
      → (tree : Tmp.Node) × (r ≡ ok tree) × (machine.put_tree tree w ≡ w')
  store-ok (ok tree) w w' h = (tree, refl, ap (λ r. r.1) h)
  store-ok (err e) w w' h = cc

  -- Over the mount table of the boot, where the state gives back the tree that was stored in it,
  -- after a successful write_file of a path under /tmp, read_file of that path gives the bytes
  -- that were written, and changes nothing.
  pub read_file-write_file_tmp :
      (root : FileSystem W) (rel bytes : Text) (w w' : W)
      → ((tree : Tmp.Node) (w : W) → machine.tree (machine.put_tree tree w) ≡ tree)
      → write_file (boot_table machine root) (codes "/tmp/" ++ rel) bytes w ≡ (ok tt, w')
      → read_file (boot_table machine root) (codes "/tmp/" ++ rel) w' ≡ (ok bytes, w')
  unfolding read_file write_file tmpfs
  read_file-write_file_tmp root rel bytes w w' keeps h =
      let to_tmp = resolve-tmp root rel in
      let writes =
        λ (r : Result (FileSystem W × Text)). on_resolved r (λ fs rel. fs.write_file rel bytes) w in
      let reads =
        λ (r : Result (FileSystem W × Text)). on_resolved r (λ fs rel. fs.read_file rel) w' in
      let (tree, changed, put) =
        store-ok (Tmp.write_file (codes "/" ++ rel) bytes (machine.tree w)) w w'
          (sym (ap writes to_tmp) ∙ h) in
      let now : machine.tree w' ≡ tree = ap machine.tree (sym put) ∙ keeps tree w in
      let got = Files.read_file-write_file (codes "/" ++ rel) bytes (machine.tree w) tree changed in
      ap reads to_tmp ∙ ap (λ r. (r, w')) (ap (Tmp.read_file (codes "/" ++ rel)) now ∙ got)
