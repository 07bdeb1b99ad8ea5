-- ===== src/Memory/Heap.antt =====
-- The pages of the heap (kernel/src/allocator.rs, `init_heap`) and the frames behind them.
use willo_main.Prelude.{
  ℕ, zero, suc, ◌+◌, ◌*◌, ◌≤◌, ◌<◌, ◌≡◌, ◌≢◌, ◌⊎◌, refl, sym, ◌∙◌, ap, subst, false, Option, none,
  some, List, [], ◌∷◌, leb, leb→le, Bool-cases, Option-cases, inl, inr, arith,
}
use mathlib.Core.Option.{some-ne-none}
use willo_main.Memory.{
  MemoryRegion, BootInfoFrameAllocator, page_size, steps, allocate_frame, Mapper, Mapped, map_page,
  map_pages, and_then, heap_pages, heap_of, init_heap, heap_start, heap_size, containing_address,
}
use willo_main.Memory.Frames.{
  IsOrdered, IsUsable, IsAligned, allocate_frame-IsUsable, allocate_frame-apart,
  memory_regions-allocate_frame,
}

-- A page table that `map_to` fills: a success maps the page to the frame and leaves the other pages
-- as they are, and its own frames come from the same allocator.
pub record IsTable {M : Type 0} (mapper : Mapper M) (frame_of : M → ℕ → Option ℕ) : Type 0 where
  pub maps :
      (page frame : ℕ) (a a' : BootInfoFrameAllocator) (m m' : M)
      → mapper.map_to page frame a m ≡ (none, a', m')
      → (frame_of m' page ≡ some frame)
        × ((p : ℕ) → p ≢ page → frame_of m' p ≡ frame_of m p)
        × (a'.memory_regions ≡ a.memory_regions)
        × (a.next ≤ a'.next)

below : (a b : ℕ) → leb a b ≡ false → b < a
below a b h = ground (arith, h)

le_or_lt : (a b : ℕ) → (a ≤ b) ⊎ (b < a)
le_or_lt a b = elim (Bool-cases (leb a b)) [
  | inl e ↦ inl (leb→le a b e)
  | inr e ↦ inr (below a b e)
]

heap_pages_lem : heap_pages ≡ steps 64 heap_start
unfolding heap_pages
heap_pages_lem = refl

module _ {M : Type 0} (mapper : Mapper M) (frame_of : M → ℕ → Option ℕ)
    (table : IsTable mapper frame_of) (regions : List MemoryRegion)
    (ordered : IsOrdered 0 regions) where
  -- The frames behind the pages are usable and apart from each other, in the order of the pages.
  abbrev pub IsBacked : ℕ → M → List ℕ → Type 0
  IsBacked low m [] = Unit
  IsBacked low m (page ∷ pages) =
      (frame : ℕ) × (frame_of m page ≡ some frame)
      × (low ≤ frame)
      × IsUsable regions frame
      × IsBacked (frame + page_size) m pages

  map_page-none :
      (page : ℕ) (a a' : BootInfoFrameAllocator) (m m' : M)
      → map_page mapper page a m ≡ (none, a', m')
      → (frame : ℕ) × ((allocate_frame a).0 ≡ some frame)
        × (mapper.map_to page frame (allocate_frame a).1 m ≡ (none, a', m'))
  unfolding map_page
  map_page-none page a a' m m' h = elim (Option-cases (allocate_frame a).0) [
    | inl e ↦ absurd (some-ne-none _ (ap (λ r. r.0) (rw (map_page, e) at h)))
    | inr (frame, e) ↦ (frame, e, rw e at h)
  ]

  and_then-none :
      (r : Mapped M) (next : BootInfoFrameAllocator → M → Mapped M) (a' : BootInfoFrameAllocator)
      (m' : M)
      → and_then r next ≡ (none, a', m')
      → (a : BootInfoFrameAllocator) × (m : M) × (r ≡ (none, a, m)) × (next a m ≡ (none, a', m'))
  and_then-none (some e, a, m) next a' m' h = absurd (some-ne-none _ (ap (λ r. r.0) h))
  and_then-none (none, a, m) next a' m' h = (a, m, refl, h)

  abbrev IsIncreasing : ℕ → List ℕ → Type 0
  IsIncreasing low [] = Unit
  IsIncreasing low (page ∷ pages) = (low ≤ page) × IsIncreasing (suc page) pages

  -- Frames from now on start at `low` or behind it.
  abbrev IsFrom : ℕ → BootInfoFrameAllocator → Type 0
  IsFrom low a =
      (b : BootInfoFrameAllocator) (frame : ℕ)
      → b.memory_regions ≡ regions
      → a.next ≤ b.next
      → (allocate_frame b).0 ≡ some frame
      → low ≤ frame

  map_pages-IsBacked :
      (pages : List ℕ) (at low : ℕ) (a a' : BootInfoFrameAllocator) (m m' : M)
      → IsIncreasing at pages
      → a.memory_regions ≡ regions
      → IsFrom low a
      → map_pages mapper pages a m ≡ (none, a', m')
      → IsBacked low m' pages × ((p : ℕ) → p < at → frame_of m' p ≡ frame_of m p)
  unfolding map_pages
  map_pages-IsBacked [] at low a a' m m' i s f h = (tt, λ p k. ap (λ r. frame_of r.2 p) (sym h))
  map_pages-IsBacked (page ∷ pages) at low a a' m m' (k, i) s f h =
      let (a1, m1, one, rest) =
        and_then-none (map_page mapper page a m) (map_pages mapper pages) a' m' h in
      let (frame, got, mapped) = map_page-none page a a1 m m1 one in
      let (here, others, same_regions, later) = table.maps page frame _ a1 m m1 mapped in
      let s1 : a1.memory_regions ≡ regions = same_regions ∙ (memory_regions-allocate_frame a ∙ s) in
      let f1 : IsFrom (frame + page_size) a1 = λ b g sb past e.
        allocate_frame-apart a b frame g (subst (IsOrdered 0) (sym s) ordered) (sb ∙ sym s)
          (omega (arith, past, later)) got e in
      let (backed, kept) =
        map_pages-IsBacked pages (suc page) (frame + page_size) a1 a' m1 m' i s1 f1 rest in
      (
        (
          frame,
          kept page (omega arith) ∙ here,
          f a frame s (omega arith) got,
          subst (λ r. IsUsable r frame) s
              (allocate_frame-IsUsable a frame (subst (IsOrdered 0) (sym s) ordered) got).0,
          backed,
        ),
        λ p k1. kept p (omega (arith, k, k1)) ∙ others p (omega (arith, k, k1)),
      )

  steps-IsIncreasing : (count low addr : ℕ) → low ≤ addr → IsIncreasing low (steps count addr)
  unfolding steps
  steps-IsIncreasing zero low addr h = tt
  steps-IsIncreasing (suc count) low addr h =
      (h, steps-IsIncreasing count (suc addr) (addr + page_size) (omega arith))

  page_of-IsBacked :
      (count low page addr : ℕ) (m : M)
      → IsAligned page
      → page ≤ addr
      → addr < page + count * page_size
      → IsBacked low m (steps count page)
      → (frame : ℕ) × (frame_of m (containing_address addr) ≡ some frame) × IsUsable regions frame
  unfolding steps
  page_of-IsBacked zero low page addr m a h k b = absurd (omega (arith, h, k))
  page_of-IsBacked (suc count) low page addr m a h k (frame, e, l, u, b) =
      elim (le_or_lt (page + page_size) addr) [
        | inl past ↦
            page_of-IsBacked count (frame + page_size) (page + page_size) addr m (omega (arith, a))
              past (omega (arith, k)) b
        | inr inside ↦
            let here : containing_address addr ≡ page = omega (arith, a, h, inside) in
            (frame, ap (frame_of m) here ∙ e, u)
      ]

  heap_pages-IsIncreasing : IsIncreasing 0 heap_pages
  heap_pages-IsIncreasing =
      subst (IsIncreasing 0) (sym heap_pages_lem) (steps-IsIncreasing 64 0 heap_start (omega arith))

  heap_of-none :
      (r : Mapped M) (heap : Option (ℕ × ℕ)) (a' : BootInfoFrameAllocator) (m' : M)
      → heap_of r ≡ ((none, heap), a', m')
      → (heap ≡ some (heap_start, heap_size)) × (r ≡ (none, a', m'))
  heap_of-none (some e, a, m) heap a' m' h = absurd (some-ne-none _ (ap (λ r. r.0.0) h))
  heap_of-none (none, a, m) heap a' m' h = (sym (ap (λ r. r.0.1) h), ap (λ r. (none, r.1, r.2)) h)

  -- Where the regions of the memory map are in ascending order, apart, and bounded by page
  -- addresses, and the mapper maps what it is told and takes its own frames from the same
  -- allocator, an init_heap that succeeds hands over the whole heap, every page of it is mapped to
  -- a frame of its own in a usable region, and every address of the heap lies in such a page.
  pub init_heap-backs :
      (a a' : BootInfoFrameAllocator) (m m' : M) (heap : Option (ℕ × ℕ))
      → a.memory_regions ≡ regions
      → init_heap mapper a m ≡ ((none, heap), a', m')
      → (heap ≡ some (heap_start, heap_size))
        × IsBacked 0 m' heap_pages
        × ((addr : ℕ)
            → heap_start ≤ addr
            → addr < heap_start + heap_size
            → (frame : ℕ) × (frame_of m' (containing_address addr) ≡ some frame)
              × IsUsable regions frame)
  unfolding init_heap
  init_heap-backs a a' m m' heap s h =
      let (given, whole) = heap_of-none (map_pages mapper heap_pages a m) heap a' m' h in
      let (backed, kept) =
        map_pages-IsBacked heap_pages 0 0 a a' m m' heap_pages-IsIncreasing s
          (λ b f sb n e. omega arith) whole in
      (
        given,
        backed,
        λ addr low high.
            page_of-IsBacked 64 0 heap_start addr m' refl low high
              (subst (IsBacked 0 m') heap_pages_lem backed),
      )
