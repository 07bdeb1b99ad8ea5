-- ===== src/Path/Normalize.antt =====
-- What `normalize` (kernel/src/fs/mod.rs) returns, and how it composes.
use willo_main.Prelude.{
  ◌≡◌, refl, ◌∙◌, ap, sym, true, false, List, [], ◌∷◌, ◌++◌, append-nil, append_assoc, Text, codes,
  Bool-cases, inl, inr, All, All-append, All-pop, push, same, same_refl, same→eq,
}
use mathlib.Core.List.{foldl, foldl-append}
use willo_main.Path.{
  slash, is_empty, segments, render, IsName, IsCanonical, apply_segment, start_stack, normalize,
  starts_with_slash,
}
use willo_main.Path.Segments.{IsSegment, segments-append_slash, segments-IsSegment, segments-render}

module _ {κ} (P : Text → Type κ) where
  apply_segment-All :
      (stack : List Text) (s : Text) → All P stack → P s → All P (apply_segment stack s)
  unfolding apply_segment
  apply_segment-All stack s h p = elim (Bool-cases (same s (codes "."))) [
    | inl e ↦ rw e h
    | inr e ↦ rw e (elim (Bool-cases (same s (codes ".."))) [
      | inl d ↦ rw d (All-pop P stack h)
      | inr d ↦ rw d (All-append P stack (s ∷ []) h (p, tt))
    ])
  ]

  foldl-All :
      (ss : List Text) (stack : List Text)
      → All P stack
      → All P ss
      → All P (foldl apply_segment stack ss)
  foldl-All [] stack h hs = h
  foldl-All (s ∷ ss) stack h hs = foldl-All ss _ (apply_segment-All stack s h hs.0) hs.1

start_stack-IsSegment : (cwd input : Text) → All IsSegment (start_stack cwd input)
unfolding start_stack
start_stack-IsSegment cwd input = elim (Bool-cases (starts_with_slash input)) [
  | inl e ↦ rw e tt
  | inr e ↦ rw e (segments-IsSegment cwd)
]

-- The segments of a normalised path are the stack that the loop left.
pub segments-normalize :
    (cwd input : Text)
    → segments (normalize cwd input) ≡ foldl apply_segment (start_stack cwd input) (segments input)
unfolding normalize
segments-normalize cwd input = segments-render _ (
    foldl-All IsSegment (segments input) _ (start_stack-IsSegment cwd input)
      (segments-IsSegment input))

-- `.` and `..` never reach the stack, the other segments do.
apply_segment-IsName :
    (stack : List Text) (s : Text)
    → All IsName stack
    → IsSegment s
    → All IsName (apply_segment stack s)
unfolding apply_segment
apply_segment-IsName stack s h p = elim (Bool-cases (same s (codes "."))) [
  | inl e ↦ rw e h
  | inr e ↦ rw e (elim (Bool-cases (same s (codes ".."))) [
    | inl d ↦ rw d (All-pop IsName stack h)
    | inr d ↦ rw d (
        All-append IsName stack (s ∷ []) h (
          record {
            filled = p.0;
            flat = p.1;
            not_dot = λ q. cc (same_refl s);
            not_dots = λ q. cc (same_refl s);
          },
          tt,
        ))
  ])
]

foldl-IsName :
    (ss : List Text) (stack : List Text)
    → All IsName stack
    → All IsSegment ss
    → All IsName (foldl apply_segment stack ss)
foldl-IsName [] stack h hs = h
foldl-IsName (s ∷ ss) stack h hs = foldl-IsName ss _ (apply_segment-IsName stack s h hs.0) hs.1

IsName-IsSegment : (ss : List Text) → All IsName ss → All IsSegment ss
IsName-IsSegment [] h = tt
IsName-IsSegment (s ∷ ss) h = ((h.0.filled, h.0.flat), IsName-IsSegment ss h.1)

segments-canonical : (p : Text) (c : IsCanonical p) → segments p ≡ c.0
segments-canonical p c = rw c.2 (segments-render c.0 (IsName-IsSegment c.0 c.1))

start_stack-IsName : (cwd input : Text) → IsCanonical cwd → All IsName (start_stack cwd input)
unfolding start_stack
start_stack-IsName cwd input c = elim (Bool-cases (starts_with_slash input)) [
  | inl e ↦ rw e tt
  | inr e ↦ rw (e, segments-canonical cwd c) c.1
]

-- From a canonical working directory ("/" or names with single slashes, none empty, "." or ".."),
-- normalize resolves every input to a canonical path.
pub normalize-IsCanonical : (cwd input : Text) → IsCanonical cwd → IsCanonical (normalize cwd input)
unfolding normalize
normalize-IsCanonical cwd input c = (
  _,
  foldl-IsName (segments input) _ (start_stack-IsName cwd input c) (segments-IsSegment input),
  refl,
)

apply_segment_name :
    (stack : List Text) (s : Text) → IsName s → apply_segment stack s ≡ push stack s
unfolding apply_segment
apply_segment_name stack s h = elim (Bool-cases (same s (codes "."))) [
  | inl e ↦ absurd (h.not_dot (same→eq s _ e))
  | inr e ↦ rw e (elim (Bool-cases (same s (codes ".."))) [
    | inl d ↦ absurd (h.not_dots (same→eq s _ d))
    | inr d ↦ rw d
  ])
]

foldl_names : (ss stack : List Text) → All IsName ss → foldl apply_segment stack ss ≡ stack ++ ss
foldl_names [] stack h = rw append-nil
foldl_names (s ∷ ss) stack h =
    ap (λ t. foldl apply_segment t ss) (apply_segment_name stack s h.0)
    ∙ (foldl_names ss _ h.1 ∙ append_assoc stack (s ∷ []) ss)

start_stack_absolute : (cwd p : Text) → starts_with_slash p ≡ true → start_stack cwd p ≡ []
unfolding start_stack
start_stack_absolute cwd p h = rw h

render-absolute : (ss : List Text) → starts_with_slash (render ss) ≡ true
unfolding render
render-absolute [] = refl
render-absolute (s ∷ ss) = refl

normalize_lem :
    (cwd p : Text) → normalize cwd p ≡ render (foldl apply_segment (start_stack cwd p) (segments p))
unfolding normalize
normalize_lem cwd p = refl

-- A canonical path is resolved to itself, whatever the working directory is.
pub normalize_canonical : (cwd p : Text) → IsCanonical p → normalize cwd p ≡ p
normalize_canonical cwd p c =
    let absolute : starts_with_slash p ≡ true = rw c.2 (render-absolute c.0) in
    normalize_lem cwd p
    ∙ (rw (start_stack_absolute cwd p absolute, segments-canonical p c, foldl_names c.0 [] c.1)
        (sym c.2))

start_stack_relative :
    (cwd p : Text) → starts_with_slash p ≡ false → start_stack cwd p ≡ segments cwd
unfolding start_stack
start_stack_relative cwd p h = rw h

start_stack-append :
    (cwd a b : Text) → is_empty a ≡ false → start_stack cwd (a ++ b) ≡ start_stack cwd a
unfolding start_stack
start_stack-append cwd [] b h = cc
start_stack-append cwd (x ∷ a) b h = refl

-- For a non-empty input a and an input b that does not start with a slash, resolving b against the
-- resolution of a is resolving a/b.
pub normalize-normalize :
    (cwd a b : Text)
    → is_empty a ≡ false
    → starts_with_slash b ≡ false
    → normalize (normalize cwd a) b ≡ normalize cwd (a ++ (slash ∷ b))
normalize-normalize cwd a b h hb =
    normalize_lem (normalize cwd a) b
    ∙ (rw
        (
          start_stack_relative (normalize cwd a) b hb,
          segments-normalize,
          ← foldl-append apply_segment (start_stack cwd a) (segments a) (segments b),
          ← segments-append_slash a b,
          ← start_stack-append cwd a (slash ∷ b) h,
        )
        (sym (normalize_lem cwd (a ++ (slash ∷ b)))))
