-- ===== src/Path/Segments.antt =====
-- How `str::split('/')` with its filter takes a path apart, and how `normalize` puts one together
-- (kernel/src/fs/mod.rs).
use willo_main.Prelude.{
  ◌≡◌, refl, ◌∙◌, ◌≢◌, false, List, [], ◌∷◌, ◌++◌, append-nil, Text, ◌==◌, Bool-cases, inl, inr,
  All, arith,
}
use willo_main.Path.{
  slash, cons_piece, split, is_empty, non_empty, segments, contains_slash, join_segments, render,
}

-- A piece that the filter lets through.
abbrev pub IsSegment : Text → Type 0
IsSegment s = (is_empty s ≡ false) × (contains_slash s ≡ false)

cons_piece-append :
    (x : _) (ps qs : List Text) → ps ≢ [] → cons_piece x (ps ++ qs) ≡ cons_piece x ps ++ qs
cons_piece-append x [] qs h = absurd (h refl)
cons_piece-append x (p ∷ ps) qs h = refl

cons_piece-ne-nil : (x : _) (ps : List Text) → cons_piece x ps ≢ []
cons_piece-ne-nil x [] h = cc
cons_piece-ne-nil x (p ∷ ps) h = cc

split-ne-nil : (s : Text) → split s ≢ []
unfolding split
split-ne-nil [] h = cc
split-ne-nil (x ∷ xs) h = ground (arith, cons_piece-ne-nil x (split xs))

split-append : (a b : Text) → split (a ++ (slash ∷ b)) ≡ split a ++ split b
unfolding split
split-append [] b = refl
split-append (x ∷ a) b =
    ground (arith, split-append a b, cons_piece-append x (split a) (split b) (split-ne-nil a))

non_empty-append : (ps qs : List Text) → non_empty (ps ++ qs) ≡ non_empty ps ++ non_empty qs
unfolding non_empty
non_empty-append [] qs = refl
non_empty-append (p ∷ ps) qs = ground (arith, non_empty-append ps qs)

-- A slash separates: the segments of the two sides, one after the other.
pub segments-append_slash : (a b : Text) → segments (a ++ (slash ∷ b)) ≡ segments a ++ segments b
unfolding segments
segments-append_slash a b = rw split-append (non_empty-append (split a) (split b))

pub segments-nil : segments [] ≡ []
unfolding segments
segments-nil = refl

pub segments-slash : (b : Text) → segments (slash ∷ b) ≡ segments b
segments-slash b = segments-append_slash [] b ∙ rw segments-nil

split-flat : (s : Text) → contains_slash s ≡ false → split s ≡ s ∷ []
unfolding split contains_slash
split-flat [] h = refl
split-flat (x ∷ s) h = ground (arith, split-flat s)

pub segments-flat : (s : Text) → IsSegment s → segments s ≡ s ∷ []
unfolding segments
segments-flat s h = rw (split-flat s h.1) (ground arith)

abbrev IsFlat : Text → Type 0
IsFlat s = contains_slash s ≡ false

cons_piece-IsFlat :
    (x : _) (ps : List Text) → (x == slash) ≡ false → All IsFlat ps → All IsFlat (cons_piece x ps)
unfolding contains_slash
cons_piece-IsFlat x [] e h = ground arith
cons_piece-IsFlat x (p ∷ ps) e h = (ground arith, h.1)

split-IsFlat : (s : Text) → All IsFlat (split s)
unfolding split contains_slash
split-IsFlat [] = (refl, tt)
split-IsFlat (x ∷ s) = elim (Bool-cases (x == slash)) [
  | inl e ↦ rw e (refl, split-IsFlat s)
  | inr e ↦ rw e (cons_piece-IsFlat x (split s) e (split-IsFlat s))
]

non_empty-IsSegment : (ps : List Text) → All IsFlat ps → All IsSegment (non_empty ps)
unfolding non_empty
non_empty-IsSegment [] h = tt
non_empty-IsSegment (p ∷ ps) h = elim (Bool-cases (is_empty p)) [
  | inl e ↦ rw e (non_empty-IsSegment ps h.1)
  | inr e ↦ rw e ((e, h.0), non_empty-IsSegment ps h.1)
]

-- Every piece that is left is filled and has no slash.
pub segments-IsSegment : (s : Text) → All IsSegment (segments s)
unfolding segments
segments-IsSegment s = non_empty-IsSegment (split s) (split-IsFlat s)

-- Writing segments out and splitting the result gives them back.
pub segments-join_segments : (ss : List Text) → All IsSegment ss → segments (join_segments ss) ≡ ss
unfolding join_segments
segments-join_segments [] h = segments-nil
segments-join_segments (s ∷ []) h = segments-slash (s ++ []) ∙ rw append-nil (segments-flat s h.0)
segments-join_segments (s ∷ t ∷ ss) h =
    segments-slash _
    ∙ (segments-append_slash s _
        ∙ cc (
          segments-flat s h.0,
          segments-slash (t ++ join_segments ss),
          segments-join_segments (t ∷ ss) h.1,
        ))

pub segments-render : (ss : List Text) → All IsSegment ss → segments (render ss) ≡ ss
unfolding render segments
segments-render [] h = refl
segments-render (s ∷ ss) h = segments-join_segments (s ∷ ss) h
