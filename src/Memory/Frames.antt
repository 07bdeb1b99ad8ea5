-- ===== src/Memory/Frames.antt =====
-- The frames that `allocate_frame` (kernel/src/memory.rs) gives, where the memory map is in order.
use willo_main.Prelude.{
  ℕ, zero, suc, ◌+◌, ◌-◌, ◌*◌, ◌/◌, ◌%◌, ◌≤◌, ◌<◌, ◌≡◌, ◌⊎◌, refl, sym, ◌∙◌, ap, subst, Bool, true,
  some, List, [], ◌∷◌, ◌++◌, map, get_elem?, if◌then◌else◌, All, Bool-cases, inl, inr, arith,
  All-append,
}
use mathlib.Core.Option.{some-injective}
use willo_main.Memory.{
  MemoryRegion, BootInfoFrameAllocator, page_size, containing_address, steps, step_by,
  usable_frames, allocate_frame,
}

abbrev pub IsAligned : ℕ → Type 0
IsAligned addr = addr % page_size ≡ 0

-- From `low` on, the regions are in ascending order, apart from each other, and their bounds are
-- page addresses.
abbrev pub IsOrdered : ℕ → List MemoryRegion → Type 0
IsOrdered low [] = Unit
IsOrdered low (r ∷ regions) =
    (low ≤ r.start)
    × (r.start ≤ r.stop)
    × IsAligned r.start
    × IsAligned r.stop
    × IsOrdered r.stop regions

-- The page at a frame lies in a usable region.
abbrev pub IsUsable : List MemoryRegion → ℕ → Type 0
IsUsable [] frame = ⊥
IsUsable (r ∷ regions) frame =
    ((r.usable ≡ true) × (r.start ≤ frame) × (frame + page_size ≤ r.stop)) ⊎ IsUsable regions frame

-- Each frame is a page address and its page starts behind the page before it.
abbrev pub IsAscending : ℕ → List ℕ → Type 0
IsAscending low [] = Unit
IsAscending low (frame ∷ frames) =
    (low ≤ frame) × IsAligned frame × IsAscending (frame + page_size) frames

-- The same, with the last page ending at `high` or before.
abbrev IsWithin : ℕ → ℕ → List ℕ → Type 0
IsWithin low high [] = low ≤ high
IsWithin low high (frame ∷ frames) =
    (low ≤ frame) × IsAligned frame × IsWithin (frame + page_size) high frames

steps-IsWithin :
    (count low addr : ℕ)
    → low ≤ addr
    → IsAligned addr
    → IsWithin low (addr + count * page_size) (map containing_address (steps count addr))
unfolding steps
steps-IsWithin zero low addr h a = omega (arith, h)
steps-IsWithin (suc count) low addr h a =
    let same_address : containing_address addr ≡ addr = omega (arith, a) in
    let last : addr + page_size + count * page_size ≡ addr + suc count * page_size = omega arith in
    let rest =
      steps-IsWithin count (addr + page_size) (addr + page_size) (omega arith) (omega (arith, a)) in
    rw same_address (
      h,
      a,
      subst
          (λ high.
            IsWithin (addr + page_size) high
              (map containing_address (steps count (addr + page_size))))
          last rest,
    )

IsWithin-append :
    (low high : ℕ) (front back : List ℕ)
    → IsWithin low high front
    → IsAscending high back
    → IsAscending low (front ++ back)
IsWithin-append low high [] [] h a = tt
IsWithin-append low high [] (frame ∷ back) h (l, a, more) = (omega (arith, h, l), a, more)
IsWithin-append low high (frame ∷ front) back (l, b, h) a =
    (l, b, IsWithin-append (frame + page_size) high front back h a)

IsAscending-weaken :
    (low low' : ℕ) (frames : List ℕ) → low' ≤ low → IsAscending low frames → IsAscending low' frames
IsAscending-weaken low low' [] h a = tt
IsAscending-weaken low low' (frame ∷ frames) h (l, a, more) = (omega (arith, h, l), a, more)

-- A region with page bounds is stepped through to its end.
region-IsWithin :
    (low : ℕ) (r : MemoryRegion)
    → low ≤ r.start
    → r.start ≤ r.stop
    → IsAligned r.start
    → IsAligned r.stop
    → IsWithin low r.stop (map containing_address (step_by r.start r.stop))
unfolding step_by
region-IsWithin low r h k a b =
    let whole : r.start + ((r.stop - r.start + (page_size - 1)) / page_size) * page_size ≡ r.stop =
      omega (arith, k, a, b) in
    subst (λ high. IsWithin low high (map containing_address (step_by r.start r.stop))) whole
      (steps-IsWithin _ low r.start h a)

pub usable_frames-IsAscending :
    (low : ℕ) (regions : List MemoryRegion)
    → IsOrdered low regions
    → IsAscending low (usable_frames regions)
unfolding usable_frames
usable_frames-IsAscending low [] h = tt
usable_frames-IsAscending low (r ∷ regions) (h, k, a, b, o) =
    let rest = usable_frames-IsAscending r.stop regions o in
    elim (Bool-cases r.usable) [
      | inl e ↦ rw e (IsWithin-append low r.stop _ _ (region-IsWithin low r h k a b) rest)
      | inr e ↦ rw e (IsAscending-weaken r.stop low _ (omega (arith, h, k)) rest)
    ]

IsWithin-All :
    (low low' high : ℕ) (frames : List ℕ)
    → low ≤ low'
    → IsWithin low' high frames
    → All (λ frame. (low ≤ frame) × (frame + page_size ≤ high)) frames
IsWithin-All low low' high [] k h = tt
IsWithin-All low low' high (frame ∷ frames) k (l, a, h) = (
  (omega (arith, k, l), ends (frame + page_size) frames h),
  IsWithin-All low (frame + page_size) high frames (omega (arith, k, l)) h,
)
  where
    ends : (low : ℕ) (frames : List ℕ) → IsWithin low high frames → low ≤ high
    ends low [] h = h
    ends low (frame ∷ frames) (l, a, h) = omega (arith, l, ends (frame + page_size) frames h)

All-map {ℓ κ} :
    {A : Type 0} (P : A → Type ℓ) (Q : A → Type κ)
    → ((x : A) → P x → Q x)
    → (xs : List A) → All P xs
    → All Q xs
All-map P Q f [] h = tt
All-map P Q f (x ∷ xs) h = (f x h.0, All-map P Q f xs h.1)

pub usable_frames-IsUsable :
    (low : ℕ) (regions : List MemoryRegion)
    → IsOrdered low regions
    → All (IsUsable regions) (usable_frames regions)
unfolding usable_frames
usable_frames-IsUsable low [] h = tt
usable_frames-IsUsable low (r ∷ regions) (h, k, a, b, o) =
    let rest =
      All-map (IsUsable regions) (IsUsable (r ∷ regions)) (λ frame u. inr u) _
        (usable_frames-IsUsable r.stop regions o) in
    let frames = λ (b : Bool).
      if b
      then map containing_address (step_by r.start r.stop) ++ usable_frames regions
      else usable_frames regions in
    elim (Bool-cases r.usable) [
      | inl e ↦
          let within =
            IsWithin-All r.start r.start r.stop _ (omega arith)
              (region-IsWithin r.start r (omega arith) k a b) in
          let here = All-map _ (IsUsable (r ∷ regions)) (λ frame u. inl (e, u.0, u.1)) _ within in
          subst (λ b. All (IsUsable (r ∷ regions)) (frames b)) (sym e) (All-append _ _ _ here rest)
      | inr e ↦ subst (λ b. All (IsUsable (r ∷ regions)) (frames b)) (sym e) rest
    ]

get_elem?-All : (P : ℕ → Type 0) (xs : List ℕ) (i x : ℕ) → All P xs → get_elem? xs i ≡ some x → P x
get_elem?-All P [] i x h e = cc
get_elem?-All P (y ∷ xs) zero x h e = subst P (some-injective _ _ e) h.0
get_elem?-All P (y ∷ xs) (suc i) x h e = get_elem?-All P xs i x h.1 e

get_elem?-low :
    (frames : List ℕ) (low i x : ℕ)
    → IsAscending low frames
    → get_elem? frames i ≡ some x
    → (low ≤ x) × IsAligned x
get_elem?-low [] low i x h e = cc
get_elem?-low (y ∷ frames) low zero x (l, a, h) e =
    subst (λ x. (low ≤ x) × IsAligned x) (some-injective _ _ e) (l, a)
get_elem?-low (y ∷ frames) low (suc i) x (l, a, h) e =
    let (k, b) = get_elem?-low frames (y + page_size) i x h e in (omega (arith, l, k), b)

get_elem?-apart :
    (frames : List ℕ) (low i j x y : ℕ)
    → IsAscending low frames
    → i < j
    → get_elem? frames i ≡ some x
    → get_elem? frames j ≡ some y
    → x + page_size ≤ y
get_elem?-apart [] low i j x y h k e f = cc
get_elem?-apart (z ∷ frames) low i zero x y h k e f = omega (arith, k)
get_elem?-apart (z ∷ frames) low zero (suc j) x y (l, a, h) k e f =
    subst (λ z. z + page_size ≤ y) (some-injective _ _ e)
      (get_elem?-low frames (z + page_size) j y h f).0
get_elem?-apart (z ∷ frames) low (suc i) (suc j) x y (l, a, h) k e f =
    get_elem?-apart frames (z + page_size) i j x y h (omega (arith, k)) e f

pub memory_regions-allocate_frame :
    (a : BootInfoFrameAllocator) → (allocate_frame a).1.memory_regions ≡ a.memory_regions
unfolding allocate_frame
memory_regions-allocate_frame a = refl

pub next-allocate_frame : (a : BootInfoFrameAllocator) → (allocate_frame a).1.next ≡ a.next + 1
unfolding allocate_frame
next-allocate_frame a = refl

-- Where the memory map is in order
pub allocate_frame-IsUsable :
    (a : BootInfoFrameAllocator) (frame : ℕ)
    → IsOrdered 0 a.memory_regions
    → (allocate_frame a).0 ≡ some frame
    → IsUsable a.memory_regions frame × IsAligned frame
unfolding allocate_frame
allocate_frame-IsUsable a frame o e = (
  get_elem?-All _ _ a.next frame (usable_frames-IsUsable 0 _ o) e,
  (get_elem?-low _ 0 a.next frame (usable_frames-IsAscending 0 _ o) e).1,
)

-- Where the regions of the memory map are in ascending order, apart, and bounded by page
-- addresses, a frame that is allocated later starts behind the page of every frame that was
-- allocated before it.
pub allocate_frame-apart :
    (a b : BootInfoFrameAllocator) (frame later : ℕ)
    → IsOrdered 0 a.memory_regions
    → b.memory_regions ≡ a.memory_regions
    → (allocate_frame a).1.next ≤ b.next
    → (allocate_frame a).0 ≡ some frame
    → (allocate_frame b).0 ≡ some later
    → frame + page_size ≤ later
unfolding allocate_frame
allocate_frame-apart a b frame later o s h e f =
    get_elem?-apart _ 0 a.next b.next frame later (usable_frames-IsAscending 0 _ o)
      (omega (arith, h)) e (ap (λ r. get_elem? (usable_frames r) b.next) (sym s) ∙ f)
