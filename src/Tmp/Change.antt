-- ===== src/Tmp/Change.antt =====
-- The write methods of `TmpFs` (kernel/src/fs/tmp.rs) as changes of the parent directory.
use willo_main.Prelude.{
  ◌≡◌, refl, ◌∙◌, ◌⊎◌, ap, sym, false, Option, none, some, List, [], ◌∷◌, ◌++◌, Text, same, arith,
  inl, inr, push, Option-cases,
}
use willo_main.Path.{segments}
use willo_main.Fs.{not_found, Result, ok, err}
use willo_main.Tmp.{
  Node, file, dir, Entries, end, get, insert, walk, edit, split_last, split_parent, create_in,
  write_in, append_in, create_dir_in, remove_in, create_file, write_file, append_file, create_dir,
  remove, edit_parent,
}
use willo_main.Tmp.Keys.{get-insert, get-insert_other, get-erase}
use willo_main.Tmp.Edit.{edit-Edited}

-- The five write methods.
pub data Change : Type 0 where
  create : Change
  write : Text → Change
  append : Text → Change
  make_dir : Change
  delete : Change

-- What a change does to the parent directory.
abbrev pub in_parent : Change → Text → Entries → Result Entries
in_parent create = create_in
in_parent (write bytes) = write_in bytes
in_parent (append bytes) = append_in bytes
in_parent make_dir = create_dir_in
in_parent delete = remove_in

unfoldable pub apply : Change → Text → Node → Result Node
unfolding create_file write_file append_file create_dir remove
apply create rel root = create_file rel root
apply (write bytes) rel root = write_file rel bytes root
apply (append bytes) rel root = append_file rel bytes root
apply make_dir rel root = create_dir rel root
apply delete rel root = remove rel root

apply_lem :
    (c : Change) (rel : Text) (root : Node)
    → apply c rel root ≡ edit_parent (split_parent rel) (in_parent c) root
unfolding apply
apply_lem create rel root = refl
apply_lem (write bytes) rel root = refl
apply_lem (append bytes) rel root = refl
apply_lem make_dir rel root = refl
apply_lem delete rel root = refl

split_last-some :
    (ss front : List Text) (last : Text) → split_last ss ≡ some (front, last) → ss ≡ push front last
unfolding split_last
split_last-some [] front last h = cc
split_last-some (s ∷ []) front last h = ground arith
split_last-some (s ∷ t ∷ ss) front last h = elim (Option-cases (split_last (t ∷ ss))) [
  | inl e ↦ absurd (ground arith)
  | inr (found, e) ↦ ground (arith, split_last-some (t ∷ ss) found.0 found.1)
]

split_parent-some :
    (rel : Text) (front : List Text) (last : Text)
    → split_parent rel ≡ some (front, last)
    → segments rel ≡ push front last
unfolding split_parent
split_parent-some rel front last h = split_last-some (segments rel) front last h

-- The entry of a directory, as `walk` finds it.
abbrev pub entry_at : Option Node → Result Node
entry_at none = err not_found
entry_at (some n) = ok n

walk-append : (n m : Node) (p q : List Text) → walk n p ≡ ok m → walk n (p ++ q) ≡ walk m q
unfolding walk
walk-append n m [] q h = ap (λ t. walk t q) (ground arith)
walk-append (file b) m (s ∷ p) q h = cc
walk-append (dir d) m (s ∷ p) q h = elim (Option-cases (get s d)) [
  | inl e ↦ absurd (ground arith)
  | inr (k, e) ↦ rw (e, walk) (walk-append k m p q (ground arith))
]

walk-one : (d : Entries) (s : Text) → walk (dir d) (s ∷ []) ≡ entry_at (get s d)
unfolding walk
walk-one d s = elim (Option-cases (get s d)) [ inl e ↦ rw (e, walk) | inr (k, e) ↦ rw (e, walk) ]

-- The parent directory of a path before and after a change, and what the path itself finds.
pub record Changed (c : Change) (rel : Text) (root root' : Node) : Type 0 where
  pub parent : List Text
  pub name : Text
  pub old : Entries
  pub new : Entries
  pub path : segments rel ≡ push parent name
  pub edited : edit root parent (in_parent c name) ≡ ok root'
  pub changed : in_parent c name old ≡ ok new
  pub found : walk root (segments rel) ≡ entry_at (get name old)
  pub finds : walk root' (segments rel) ≡ entry_at (get name new)

pub apply-Changed :
    (c : Change) (rel : Text) (root root' : Node)
    → apply c rel root ≡ ok root'
    → Changed c rel root root'
apply-Changed c rel root root' h = elim (Option-cases (split_parent rel)) [
  | inl e ↦ absurd (cc (apply_lem c rel root, ap (λ o. edit_parent o (in_parent c) root) e))
  | inr (found, e) ↦ go found.0 found.1 e
]
  where
    go :
        (p : List Text) (name : Text) → split_parent rel ≡ some (p, name) → Changed c rel root root'
    go p name e =
        let at_parent : edit root p (in_parent c name) ≡ ok root' =
          sym (ap (λ o. edit_parent o (in_parent c) root) e) ∙ (sym (apply_lem c rel root) ∙ h) in
        let ed = edit-Edited root p (in_parent c name) root' at_parent in
        let path = split_parent-some rel p name e in
        record {
          parent = p;
          name = name;
          old = ed.old;
          new = ed.new;
          path = path;
          edited = at_parent;
          changed = ed.changed;
          found =
              ap (walk root) path
              ∙ (walk-append root (dir ed.old) p (name ∷ []) ed.found ∙ walk-one ed.old name);
          finds = ap (walk root') path ∙ (ed.through (name ∷ []) ∙ walk-one ed.new name);
        }

pub append_in-ok :
    (bytes name : Text) (d d' : Entries)
    → append_in bytes name d ≡ ok d'
    → (x : Text) × (d' ≡ insert name (file (x ++ bytes)) d)
      × ((get name d ≡ some (file x)) ⊎ ((get name d ≡ none) × (x ≡ [])))
unfolding append_in
append_in-ok bytes name d d' h = elim (Option-cases (get name d)) [
  | inl e ↦ ([], ground arith, inr (e, refl))
  | inr (file b, e) ↦ (b, ground arith, inl e)
  | inr (dir k, e) ↦ absurd (ground arith)
]

pub in_parent-keeps :
    (c : Change) (name : Text) (d d' : Entries)
    → in_parent c name d ≡ ok d'
    → (t : Text) → same name t ≡ false
    → get t d' ≡ get t d
unfolding create_in write_in append_in create_dir_in remove_in
in_parent-keeps create name d d' h t other = ground (arith, get-insert name t (file []) d)
in_parent-keeps (write bytes) name d d' h t other = ground (arith, get-insert name t (file bytes) d)
in_parent-keeps (append bytes) name d d' h t other =
    let (x, e, _) = append_in-ok bytes name d d' h in
    ap (get t) e ∙ get-insert_other name t (file (x ++ bytes)) d other
in_parent-keeps make_dir name d d' h t other = ground (arith, get-insert name t (dir end) d)
in_parent-keeps delete name d d' h t other = ground (arith, get-erase name t d)
