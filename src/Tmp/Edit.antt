-- ===== src/Tmp/Edit.antt =====
-- What a change of one directory (`walk_mut` and the mutation behind it, kernel/src/fs/tmp.rs)
-- does to the whole tree.
use willo_main.Prelude.{
  ◌≡◌, refl, ◌∙◌, ◌⊎◌, ap, sym, true, false, some, List, [], ◌∷◌, ◌++◌, Text, same, same→eq, arith,
  Bool-cases, inl, inr, push, Option-cases,
}
use willo_main.Fs.{FsError, Result, ok, err, ◌>>=◌}
use willo_main.Tmp.{Node, file, dir, Entries, get, insert, walk, edit}
use willo_main.Tmp.Keys.{get-insert, get-insert_self, get-insert_other, is_prefix}

pub Result-cases {ℓ} :
    {A : Type ℓ} (r : Result A) → ((a : A) × (r ≡ ok a)) ⊎ ((e : FsError) × (r ≡ err e))
Result-cases (ok a) = inl (a, refl)
Result-cases (err e) = inr (e, refl)

-- A step into a directory.
edit-step :
    (d : Entries) (s : Text) (ss : List Text) (f : Entries → Result Entries) (n' : Node)
    → edit (dir d) (s ∷ ss) f ≡ ok n'
    → (m : Node) × (m' : Node) × (get s d ≡ some m)
      × (edit m ss f ≡ ok m')
      × (n' ≡ dir (insert s m' d))
unfolding edit
edit-step d s ss f n' h = elim (Option-cases (get s d)) [
  | inl e ↦ absurd (ground arith)
  | inr (m, e) ↦ elim (Result-cases (edit m ss f)) [
    | inl (m', e') ↦ (m, m', e, e', ground arith)
    | inr (x, e') ↦ absurd (ground arith)
  ]
]

edit-here :
    (d : Entries) (f : Entries → Result Entries) (n' : Node)
    → edit (dir d) [] f ≡ ok n'
    → (d' : Entries) × (f d ≡ ok d') × (n' ≡ dir d')
unfolding edit
edit-here d f n' h = elim (Result-cases (f d)) [
  | inl (d', e) ↦ (d', e, ground arith)
  | inr (x, e) ↦ absurd (ground arith)
]

-- The changed directory: what was at `p` before, and what every path through `p` finds now.
pub record Edited (n : Node) (p : List Text) (f : Entries → Result Entries) (n' : Node)
    : Type 0 where
  pub old : Entries
  pub new : Entries
  pub found : walk n p ≡ ok (dir old)
  pub changed : f old ≡ ok new
  pub through : (q : List Text) → walk n' (p ++ q) ≡ walk (dir new) q

walk-step :
    (d : Entries) (s : Text) (ss : List Text) (m : Node)
    → get s d ≡ some m
    → walk (dir d) (s ∷ ss) ≡ walk m ss
unfolding walk
walk-step d s ss m e = rw (e, walk)

walk-here : (n : Node) → walk n [] ≡ ok n
unfolding walk
walk-here n = refl

pub edit-Edited :
    (n : Node) (p : List Text) (f : Entries → Result Entries) (n' : Node)
    → edit n p f ≡ ok n'
    → Edited n p f n'
unfolding edit
edit-Edited (file b) [] f n' h = cc
edit-Edited (file b) (s ∷ ss) f n' h = cc
edit-Edited (dir d) [] f n' h =
    let (d', e, e') = edit-here d f n' h in
    record {
      old = d;
      new = d';
      found = walk-here (dir d);
      changed = e;
      through = λ q. ap (λ t. walk t q) e';
    }
edit-Edited (dir d) (s ∷ ss) f n' h =
    let (m, m', e, e', e'') = edit-step d s ss f n' h in
    let ih = edit-Edited m ss f m' e' in
    record {
      old = ih.old;
      new = ih.new;
      found = walk-step d s ss m e ∙ ih.found;
      changed = ih.changed;
      through = λ q.
          ap (λ t. walk t (s ∷ ss ++ q)) e''
          ∙ (walk-step (insert s m' d) s (ss ++ q) m' (get-insert_self s m' d) ∙ ih.through q);
    }

walk-get :
    (d d' : Entries) (t : Text) (q : List Text)
    → get t d' ≡ get t d
    → walk (dir d') (t ∷ q) ≡ walk (dir d) (t ∷ q)
unfolding walk
walk-get d d' t q e = rw (e, walk)

is_prefix-step :
    (s t : Text) (p q : List Text)
    → is_prefix (s ∷ p) (t ∷ q) ≡ false
    → same s t ≡ true
    → is_prefix p q ≡ false
unfolding is_prefix
is_prefix-step s t p q h e = ground arith

is_prefix-one : (s t : Text) (q : List Text) → is_prefix (s ∷ []) (t ∷ q) ≡ false → same s t ≡ false
unfolding is_prefix
is_prefix-one s t q h = ground arith

-- `view` is what a caller sees of a node: its text, or whether it is a directory.
module _ {A : Type 0} (view : Node → Result A)
    (blind : (d d' : Entries) → view (dir d) ≡ view (dir d')) where
  view-root :
      (d d' : Entries) (n' : Node)
      → n' ≡ dir d'
      → (walk n' [] >>= view) ≡ (walk (dir d) [] >>= view)
  view-root d d' n' e =
      ap (λ r. r >>= view) (walk-here n')
      ∙ (ap view e ∙ (blind d' d ∙ sym (ap (λ r. r >>= view) (walk-here (dir d)))))

  view-step :
      (d : Entries) (t : Text) (q : List Text) (m : Node)
      → get t d ≡ some m
      → (walk (dir d) (t ∷ q) >>= view) ≡ (walk m q >>= view)
  view-step d t q m e = ap (λ r. r >>= view) (walk-step d t q m e)

  -- A change of one key of one directory leaves what is seen at every other path alone, errors too.
  pub edit-frame :
      (n : Node) (p : List Text) (name : Text) (f : Entries → Result Entries) (n' : Node)
      → ((d d' : Entries) → f d ≡ ok d' → (t : Text) → same name t ≡ false → get t d' ≡ get t d)
      → edit n p f ≡ ok n'
      → (q : List Text) → is_prefix (push p name) q ≡ false
      → (walk n' q >>= view) ≡ (walk n q >>= view)
  unfolding edit
  edit-frame (file b) [] name f n' keep h q a = cc
  edit-frame (file b) (s ∷ ss) name f n' keep h q a = cc
  edit-frame (dir d) [] name f n' keep h [] a =
      let (d', e, e') = edit-here d f n' h in view-root d d' n' e'
  edit-frame (dir d) [] name f n' keep h (t ∷ q) a =
      let (d', e, e') = edit-here d f n' h in
      ap (λ k. walk k (t ∷ q) >>= view) e'
      ∙ ap (λ r. r >>= view) (walk-get d d' t q (keep d d' e t (is_prefix-one name t q a)))
  edit-frame (dir d) (s ∷ ss) name f n' keep h [] a =
      let (m, m', e, e', e'') = edit-step d s ss f n' h in view-root d (insert s m' d) n' e''
  edit-frame (dir d) (s ∷ ss) name f n' keep h (t ∷ q) a =
      let (m, m', e, e', e'') = edit-step d s ss f n' h in
      ap (λ k. walk k (t ∷ q) >>= view) e'' ∙ elim (Bool-cases (same s t)) [
        | inr other ↦
            ap (λ r. r >>= view) (walk-get d (insert s m' d) t q (get-insert_other s t m' d other))
        | inl here ↦
            let st = same→eq s t here in
            view-step (insert s m' d) t q m' (get-insert s t m' d ∙ rw here)
            ∙ (edit-frame m ss name f m' keep e' q (is_prefix-step s t (push ss name) q a here)
                ∙ sym (view-step d t q m (ap (λ k. get k d) (sym st) ∙ e)))
      ]
