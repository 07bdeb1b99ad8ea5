-- ===== src/Fat/Listing.antt =====
-- A directory as the list of its slots (kernel/src/fs/fat.rs, `read_dir` and `add_dir_entry`).
use willo_main.Prelude.{
  ◌≡◌, ◌⊎◌, inl, inr, refl, sym, ap, ◌∙◌, Bool, true, false, ◌||◌, Option, none, some, List, [],
  ◌∷◌, ◌++◌, Text, ◌==◌, if◌then◌else◌, Bool-cases, Option-cases, ◌≢◌, arith,
}
use willo_main.Fat.{DirEntry, Slot, byte, read_slot, stop, skip, found, same_ignoring_case}
use willo_main.Fat.Chain.{entries_of, find_entry}

-- A slot that add_dir_entry may write over.
abbrev pub is_free : Text → Bool
is_free s = byte s 0 == 0 || byte s 0 == 0xE5

-- The slots with the first free one written over, if there is one.
abbrev pub fill : Text → List Text → Option (List Text)
fill x [] = none
fill x (s ∷ ss) =
    let rest = fill x ss in
    if is_free s then some (x ∷ ss) else elim rest [ none ↦ none | some r ↦ some (s ∷ r) ]

pub fill_free : (x s : Text) (ss : List Text) → is_free s ≡ true → fill x (s ∷ ss) ≡ some (x ∷ ss)
fill_free x s ss e = rw e refl

pub fill_later :
    (x s : Text) (ss r : List Text)
    → is_free s ≡ false
    → fill x ss ≡ some r
    → fill x (s ∷ ss) ≡ some (s ∷ r)
fill_later x s ss r e f = rw (e, f) refl

pub fill_never :
    (x s : Text) (ss : List Text) → is_free s ≡ false → fill x ss ≡ none → fill x (s ∷ ss) ≡ none
fill_never x s ss e f = rw (e, f) refl

-- The slot is written over, or it is kept and a later one is written over.
abbrev IsFilled : Text → Text → List Text → List Text → Type 0
IsFilled x s ss ss' =
    ((is_free s ≡ true) × (ss' ≡ x ∷ ss))
    ⊎ ((r : List Text) × (is_free s ≡ false) × (fill x ss ≡ some r) × (ss' ≡ s ∷ r))

pub fill-some : (x s : Text) (ss ss' : List Text) → fill x (s ∷ ss) ≡ some ss' → IsFilled x s ss ss'
fill-some x s ss ss' h = elim (Bool-cases (is_free s)) [
  | inl e ↦ let q : some (x ∷ ss) ≡ some ss' = sym (fill_free x s ss e) ∙ h in inl (e, cc)
  | inr e ↦ elim (Option-cases (fill x ss)) [
    | inl f ↦ let q : none ≡ some ss' = sym (fill_never x s ss e f) ∙ h in absurd (cc)
    | inr (r, f) ↦
        let q : some (s ∷ r) ≡ some ss' = sym (fill_later x s ss r e f) ∙ h in inr (r, e, f, cc)
  ]
]

fill-none :
    (x s : Text) (ss : List Text)
    → fill x (s ∷ ss) ≡ none
    → (is_free s ≡ false) × (fill x ss ≡ none)
fill-none x s ss h = elim (Bool-cases (is_free s)) [
  | inl e ↦ let q : some (x ∷ ss) ≡ none = sym (fill_free x s ss e) ∙ h in absurd (cc)
  | inr e ↦ elim (Option-cases (fill x ss)) [
    | inl f ↦ (e, f)
    | inr (r, f) ↦ let q : some (s ∷ r) ≡ none = sym (fill_later x s ss r e f) ∙ h in absurd (cc)
  ]
]

pub fill-append_some :
    (x : Text) (a a' b : List Text) → fill x a ≡ some a' → fill x (a ++ b) ≡ some (a' ++ b)
fill-append_some x [] a' b h = cc
fill-append_some x (s ∷ a) a' b h = elim (fill-some x s a a' h) [
  | inl (e, q) ↦ fill_free x s (a ++ b) e ∙ ap (λ t. some (t ++ b)) (sym q)
  | inr (r, e, f, q) ↦
      fill_later x s (a ++ b) (r ++ b) e (fill-append_some x a r b f)
      ∙ ap (λ t. some (t ++ b)) (sym q)
]

pub fill-append_none :
    (x : Text) (a b b' : List Text)
    → fill x a ≡ none
    → fill x b ≡ some b'
    → fill x (a ++ b) ≡ some (a ++ b')
fill-append_none x [] b b' h k = k
fill-append_none x (s ∷ a) b b' h k =
    let (e, f) = fill-none x s a h in
    fill_later x s (a ++ b) (a ++ b') e (fill-append_none x a b b' f k)

pub fill-append_never :
    (x : Text) (a b : List Text) → fill x a ≡ none → fill x b ≡ none → fill x (a ++ b) ≡ none
fill-append_never x [] b h k = k
fill-append_never x (s ∷ a) b h k =
    let (e, f) = fill-none x s a h in fill_never x s (a ++ b) e (fill-append_never x a b f k)

-- Some slot may be written over.
abbrev pub has_free : List Text → Bool
has_free [] = false
has_free (s ∷ ss) = is_free s || has_free ss

pub has_free-fill :
    (x : Text) (ss : List Text) → has_free ss ≡ true → (ss' : List Text) × (fill x ss ≡ some ss')
has_free-fill x [] h = absurd (cc)
has_free-fill x (s ∷ ss) h = elim (Bool-cases (is_free s)) [
  | inl e ↦ (x ∷ ss, fill_free x s ss e)
  | inr e ↦
      let (r, f) = has_free-fill x ss (ground (arith, e, h)) in (s ∷ r, fill_later x s ss r e f)
]

-- A slot that is not free does not end the listing.
not_stop : (s : Text) → is_free s ≡ false → read_slot s ≢ stop
unfolding read_slot
not_stop s e q =
    let filled : (byte s 0 == 0) ≡ false = ground (arith, e) in absurd (ground (arith, filled, q))

-- The entries behind a slot, without its own.
abbrev front : Slot → List DirEntry → List DirEntry
front stop rest = []
front skip rest = rest
front (found e) rest = e ∷ rest

entries_of_lem :
    (s : Text) (ss : List Text) → entries_of (s ∷ ss) ≡ front (read_slot s) (entries_of ss)
unfolding entries_of
entries_of_lem s ss = cases (read_slot s)
  where
    cases :
        (r : Slot)
        → (elim r [ stop ↦ [] | skip ↦ entries_of ss | found e ↦ e ∷ entries_of ss ])
          ≡ front r (entries_of ss)
    cases stop = refl
    cases skip = refl
    cases (found e) = refl

first_found :
    (name : Text) (e : DirEntry) (es : List DirEntry)
    → same_ignoring_case e.name name ≡ true
    → find_entry name (e ∷ es) ≡ some e
unfolding find_entry
first_found name e es m = rw m refl

-- Behind a slot that does not end the listing, the search goes on if it failed before.
behind :
    (name : Text) (e : DirEntry) (old new : List DirEntry) (r : Slot)
    → r ≢ stop
    → find_entry name (front r old) ≡ none
    → (find_entry name old ≡ none → find_entry name new ≡ some e)
    → find_entry name (front r new) ≡ some e
unfolding find_entry
behind name e old new stop ne n k = absurd (ne refl)
behind name e old new skip ne n k = k n
behind name e old new (found d) ne n k = elim (Bool-cases (same_ignoring_case d.name name)) [
  | inl m ↦ absurd (ground (arith, m, n))
  | inr m ↦ ground (arith, m, n, k)
]

-- A new entry is found under its name, where no entry had this name before.
pub find_entry-fill :
    (x name : Text) (e : DirEntry) (ss ss' : List Text)
    → read_slot x ≡ found e
    → same_ignoring_case e.name name ≡ true
    → find_entry name (entries_of ss) ≡ none
    → fill x ss ≡ some ss'
    → find_entry name (entries_of ss') ≡ some e
find_entry-fill x name e [] ss' r m n h = cc
find_entry-fill x name e (s ∷ ss) ss' r m n h = elim (fill-some x s ss ss' h) [
  | inl (k, q) ↦
      ap (λ t. find_entry name (entries_of t)) q
      ∙ (ap (find_entry name) (entries_of_lem x ss ∙ ap (λ t. front t (entries_of ss)) r)
          ∙ first_found name e (entries_of ss) m)
  | inr (t, k, f, q) ↦
      ap (λ t. find_entry name (entries_of t)) q
      ∙ (ap (find_entry name) (entries_of_lem s t)
          ∙ behind name e (entries_of ss) (entries_of t) (read_slot s) (not_stop s k)
              (ap (find_entry name) (sym (entries_of_lem s ss)) ∙ n)
              (λ m'. find_entry-fill x name e ss t r m m' f))
]
