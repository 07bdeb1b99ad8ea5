-- ===== src/Path/Prefix.antt =====
-- What `canonical_prefix` and `direct_child` (kernel/src/fs/mod.rs) return.
use willo_main.Prelude.{
  ℕ, suc, ◌≡◌, refl, ◌∙◌, ap, ◌↔◌, ◌⊎◌, Bool, true, false, [], ◌∷◌, ◌++◌, some, Text, codes, ◌==◌,
  Bool-cases, inl, inr, arith, same, same→eq, replicate, Option-cases,
}
use willo_main.Path.{
  slash, starts_with_slash, is_empty, trim_end, canonical_prefix, strip_prefix, child_name,
  after_parent, direct_child,
}
use willo_main.Path.Segments.{IsSegment}

-- The last byte is a slash.
abbrev pub ends_with_slash : Text → Bool
ends_with_slash [] = false
ends_with_slash (x ∷ []) = x == slash
ends_with_slash (x ∷ y ∷ s) = ends_with_slash (y ∷ s)

empty_of : (s : Text) → is_empty s ≡ true → s ≡ []
empty_of [] h = refl
empty_of (x ∷ s) h = cc

trim_end-cut : (s : Text) → (n : ℕ) × (s ≡ trim_end s ++ replicate n slash)
unfolding trim_end
trim_end-cut [] = (0, refl)
trim_end-cut (x ∷ s) =
    let (n, e) = trim_end-cut s in
    elim (Bool-cases (is_empty (trim_end s))) [
      | inl blank ↦ elim (Bool-cases (x == slash)) [
        | inl cut ↦ (suc n, ground (arith, empty_of (trim_end s)))
        | inr kept ↦ (n, ground (arith, empty_of (trim_end s)))
      ]
      | inr filled ↦ (n, ground arith)
    ]

ends_with_slash-cons :
    (x : ℕ) (s : Text) → is_empty s ≡ false → ends_with_slash (x ∷ s) ≡ ends_with_slash s
ends_with_slash-cons x [] h = cc
ends_with_slash-cons x (y ∷ s) h = refl

trim_end-end : (s : Text) → ends_with_slash (trim_end s) ≡ false
unfolding trim_end
trim_end-end [] = refl
trim_end-end (x ∷ s) = ground (arith, trim_end-end s, ends_with_slash-cons x (trim_end s))

-- `trim_end_matches('/')` cuts off slashes, all those at the end and nothing else.
pub trim_end_lem :
    (s : Text)
    → ((n : ℕ) × (s ≡ trim_end s ++ replicate n slash)) × (ends_with_slash (trim_end s) ≡ false)
trim_end_lem s = (trim_end-cut s, trim_end-end s)

-- `canonical_prefix` is `trim_end_matches`: its test for "/" only saves the work.
pub canonical_prefix-trim_end : (p : Text) → canonical_prefix p ≡ trim_end p
unfolding canonical_prefix
canonical_prefix-trim_end p = elim (Bool-cases (same p (codes "/"))) [
  | inl e ↦ rw (same→eq p _ e) refl
  | inr e ↦ rw e
]

trim_end_fixed : (s : Text) → ends_with_slash s ≡ false → trim_end s ≡ s
unfolding trim_end
trim_end_fixed [] h = refl
trim_end_fixed (x ∷ []) h = rw h
trim_end_fixed (x ∷ y ∷ s) h = ground (arith, trim_end_fixed (y ∷ s))

starts_with_slash-trim_end :
    (s : Text)
    → starts_with_slash s ≡ true
    → (trim_end s ≡ []) ⊎ (starts_with_slash (trim_end s) ≡ true)
unfolding trim_end
starts_with_slash-trim_end [] h = cc
starts_with_slash-trim_end (x ∷ s) h = ground arith

-- The form in which a prefix is stored: empty for the root, or an absolute path with no slash at
-- its end.
abbrev pub IsStored : Text → Type 0
IsStored p = (ends_with_slash p ≡ false) × ((p ≡ []) ⊎ (starts_with_slash p ≡ true))

pub canonical_prefix-IsStored :
    (p : Text) → starts_with_slash p ≡ true → IsStored (canonical_prefix p)
canonical_prefix-IsStored p h =
    rw (canonical_prefix-trim_end p) (trim_end-end p, starts_with_slash-trim_end p h)

-- Canonical prefixes are left alone.
pub canonical_prefix_idem : (p : Text) → canonical_prefix (canonical_prefix p) ≡ canonical_prefix p
canonical_prefix_idem p =
    rw (canonical_prefix-trim_end p, canonical_prefix-trim_end (trim_end p))
      (trim_end_fixed (trim_end p) (trim_end-end p))

pub strip_prefix-append : (p s : Text) → strip_prefix p (p ++ s) ≡ some s
unfolding strip_prefix
strip_prefix-append [] s = refl
strip_prefix-append (x ∷ p) s = ground (arith, strip_prefix-append p s)

pub strip_prefix-some : (p s t : Text) → strip_prefix p s ≡ some t → s ≡ p ++ t
unfolding strip_prefix
strip_prefix-some [] s t h = cc
strip_prefix-some (x ∷ p) [] t h = cc
strip_prefix-some (x ∷ p) (y ∷ s) t h = ground (arith, strip_prefix-some p s t)

child_name-some :
    (rest : Text) {name : Text} → child_name rest ≡ some name → (rest ≡ name) × IsSegment name
unfolding child_name
child_name-some rest h = ground arith

after_parent-append :
    (parent rest : Text) → after_parent parent (parent ++ (slash ∷ rest)) ≡ some rest
unfolding after_parent
after_parent-append [] rest = refl
after_parent-append (x ∷ p) rest = ground (arith, strip_prefix-append (x ∷ p) (slash ∷ rest))

after_parent-some :
    (parent child : Text) {rest : Text}
    → after_parent parent child ≡ some rest
    → child ≡ parent ++ (slash ∷ rest)
unfolding after_parent
after_parent-some [] child {rest} h = strip_prefix-some (codes "/") child rest h
after_parent-some (x ∷ p) child {rest} h = elim (Option-cases (strip_prefix (x ∷ p) child)) [
  | inl e ↦ ground arith
  | inr (after, e) ↦
      ground
        (arith, strip_prefix-some (x ∷ p) child after, strip_prefix-some (codes "/") after rest)
]

direct_child-some :
    (parent child name : Text)
    → direct_child parent child ≡ some name
    → (rest : Text) × (after_parent parent child ≡ some rest) × (child_name rest ≡ some name)
unfolding direct_child
direct_child-some parent child name h = ground arith

child_name-of : (name : Text) → IsSegment name → child_name name ≡ some name
unfolding child_name
child_name-of name h = ground arith

direct_child-of :
    (parent name : Text)
    → IsSegment name
    → direct_child parent (parent ++ (slash ∷ name)) ≡ some name
unfolding direct_child
direct_child-of [] name h = ground (arith, after_parent-append [] name, child_name-of name h)
direct_child-of (x ∷ p) name h =
    ground (arith, after_parent-append (x ∷ p) name, child_name-of name h)

-- direct_child finds a name for a mount prefix exactly if the prefix is the parent, a slash and
-- that name, and the name is not empty and has no slash.
pub direct_child_iff :
    (parent child name : Text)
    → (direct_child parent child ≡ some name)
      ↔ ((child ≡ parent ++ (slash ∷ name)) × IsSegment name)
direct_child_iff parent child name = (
  (λ h.
      let (rest, e, c) = direct_child-some parent child name h in
      let (same_rest, seg) = child_name-some rest c in
      (after_parent-some parent child e ∙ ap (λ t. parent ++ (slash ∷ t)) same_rest, seg)),
  (λ h. rw h.0 (direct_child-of parent name h.1)),
)
