-- ===== src/Tmp/Files.antt =====
-- The write methods of `TmpFs` (kernel/src/fs/tmp.rs) against its read methods.
use willo_main.Prelude.{
  ◌≡◌, refl, ◌∙◌, ◌⊎◌, ap, sym, Bool, true, false, [], ◌++◌, Text, arith, inl, inr, push,
}
use willo_main.Path.{segments}
use willo_main.Fs.{not_found, not_a_dir, Result, ok, err, ◌>>=◌}
use willo_main.Tmp.{
  Node, file, dir, Entries, get, insert, walk, contents, names, read_file, list_dir, is_dir,
  write_in, write_file, append_file,
}
use willo_main.Tmp.Keys.{get-insert_self, is_prefix}
use willo_main.Tmp.Edit.{edit-frame}
use willo_main.Tmp.Change.{
  Change, write, append, in_parent, apply, entry_at, apply-Changed, append_in-ok, in_parent-keeps,
}

-- Whether a node is a directory, as a result that `walk` can pass on.
abbrev pub is_directory : Node → Result (Unit {0})
is_directory (file b) = err not_a_dir
is_directory (dir d) = ok tt

abbrev pub succeeded : Result (Unit {0}) → Bool
succeeded (ok u) = true
succeeded (err e) = false

pub is_dir-walk :
    (rel : Text) (root : Node)
    → is_dir rel root ≡ succeeded (walk root (segments rel) >>= is_directory)
unfolding is_dir
is_dir-walk rel root = ground arith

pub read_file-walk :
    (rel : Text) (root : Node) → read_file rel root ≡ (walk root (segments rel) >>= contents)
unfolding read_file
read_file-walk rel root = refl

pub list_dir-walk :
    (rel : Text) (root : Node) → list_dir rel root ≡ (walk root (segments rel) >>= names)
unfolding list_dir
list_dir-walk rel root = refl

-- A successful write method of the tmpfs leaves every path that does not begin with its own path
-- alone: it reads as before, an error included, and it is a directory exactly if it was one.
pub apply-frame :
    (c : Change) (rel other : Text) (root root' : Node)
    → apply c rel root ≡ ok root'
    → is_prefix (segments rel) (segments other) ≡ false
    → (read_file other root' ≡ read_file other root) × (is_dir other root' ≡ is_dir other root)
apply-frame c rel other root root' h away =
    let ch = apply-Changed c rel root root' h in
    let keeps = in_parent-keeps c ch.name in
    let off : is_prefix (push ch.parent ch.name) (segments other) ≡ false =
      ap (λ t. is_prefix t (segments other)) (sym ch.path) ∙ away in
    (
      read_file-walk other root'
          ∙ (edit-frame contents (λ d d'. refl) root ch.parent ch.name (in_parent c ch.name) root'
                keeps ch.edited (segments other) off
              ∙ sym (read_file-walk other root)),
      is_dir-walk other root'
          ∙ (ap succeeded (
                edit-frame is_directory (λ d d'. refl) root ch.parent ch.name (in_parent c ch.name)
                  root' keeps ch.edited (segments other) off)
              ∙ sym (is_dir-walk other root)),
    )

write_in-ok :
    (bytes name : Text) (d d' : Entries)
    → write_in bytes name d ≡ ok d'
    → d' ≡ insert name (file bytes) d
unfolding write_in
write_in-ok bytes name d d' h = ground arith

-- After a successful write_file on the tmpfs, read_file of the same path gives the bytes that were
-- written.
pub read_file-write_file :
    (rel bytes : Text) (root root' : Node)
    → write_file rel bytes root ≡ ok root'
    → read_file rel root' ≡ ok bytes
unfolding apply
read_file-write_file rel bytes root root' h =
    let ch = apply-Changed (write bytes) rel root root' h in
    let e = write_in-ok bytes ch.name ch.old ch.new ch.changed in
    read_file-walk rel root'
    ∙ ap (λ r. r >>= contents)
        (ch.finds ∙ ap entry_at (ap (get ch.name) e ∙ get-insert_self ch.name (file bytes) ch.old))

-- After a successful append_file on the tmpfs, the path reads as the old text followed by the new
-- bytes, where the old text is what the path read as before, or empty if nothing was found there.
pub read_file-append_file :
    (rel bytes : Text) (root root' : Node)
    → append_file rel bytes root ≡ ok root'
    → (x : Text) × (read_file rel root' ≡ ok (x ++ bytes))
      × ((read_file rel root ≡ ok x) ⊎ ((read_file rel root ≡ err not_found) × (x ≡ [])))
unfolding apply
read_file-append_file rel bytes root root' h =
    let ch = apply-Changed (append bytes) rel root root' h in
    let (x, e, was) = append_in-ok bytes ch.name ch.old ch.new ch.changed in
    let before : read_file rel root ≡ (entry_at (get ch.name ch.old) >>= contents) =
      read_file-walk rel root ∙ ap (λ r. r >>= contents) ch.found in
    (
      x,
      read_file-walk rel root'
          ∙ ap (λ r. r >>= contents)
              (ch.finds
                ∙ ap entry_at
                    (ap (get ch.name) e ∙ get-insert_self ch.name (file (x ++ bytes)) ch.old)),
      elim was [
        | inl f ↦ inl (before ∙ ap (λ o. entry_at o >>= contents) f)
        | inr (f, blank) ↦ inr (before ∙ ap (λ o. entry_at o >>= contents) f, blank)
      ],
    )
