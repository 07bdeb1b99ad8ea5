-- ===== src/Tests/Memory.antt =====
-- A memory map with two usable regions (kernel/src/memory.rs), and the heap in it
-- (kernel/src/allocator.rs).
use willo_main.Prelude.{
  ℕ, ◌+◌, ◌≤◌, ◌<◌, ◌≡◌, ◌≢◌, refl, sym, ap, ◌∙◌, true, false, Option, none, some, List, [], ◌∷◌,
  ◌==◌, if◌then◌else◌, arith,
}
use willo_main.Memory.{
  MemoryRegion, BootInfoFrameAllocator, Mapper, allocate_frame, init_heap, heap_pages, heap_start,
  heap_size, page_size, containing_address,
}
use willo_main.Memory.Frames.{
  IsOrdered, IsUsable, IsAligned, allocate_frame-IsUsable, allocate_frame-apart,
}
use willo_main.Memory.Heap.{IsTable, IsBacked, init_heap-backs}

abbrev regions : List MemoryRegion
regions =
    record { start = 0; stop = 4096; usable = true }
    ∷ record { start = 4096; stop = 12288; usable = false }
    ∷ record { start = 16384; stop = 409600; usable = true }
    ∷ []

abbrev frames : BootInfoFrameAllocator
frames = record { memory_regions = regions; next = 0 }

regions-IsOrdered : IsOrdered 0 regions
regions-IsOrdered = (
  omega arith,
  omega arith,
  refl,
  refl,
  (omega arith, omega arith, refl, refl, (omega arith, omega arith, refl, refl, tt)),
)

second : (allocate_frame (record frames { next = 1 })).0 ≡ some 16384
unfolding allocate_frame
second = refl

third : (allocate_frame (record frames { next = 2 })).0 ≡ some 20480
unfolding allocate_frame
third = refl

allocate_frame-IsUsable_example : IsUsable regions 16384 × IsAligned 16384
allocate_frame-IsUsable_example =
    allocate_frame-IsUsable (record frames { next = 1 }) 16384 regions-IsOrdered second

second-next : (allocate_frame (record frames { next = 1 })).1.next ≤ 2
unfolding allocate_frame
second-next = omega arith

allocate_frame-apart_example : 16384 + page_size ≤ 20480
allocate_frame-apart_example =
    allocate_frame-apart (record frames { next = 1 }) (record frames { next = 2 }) 16384 20480
      regions-IsOrdered refl second-next second third

abbrev Table : Type 0
Table = ℕ → Option ℕ

abbrev mapper : Mapper Table
mapper = record { map_to = λ page frame a m. (none, a, λ p. if p == page then some frame else m p) }

abbrev frame_of : Table → ℕ → Option ℕ
frame_of m p = m p

stored_here : (p frame : ℕ) (m : Table) → (if p == p then some frame else m p) ≡ some frame
stored_here p frame m = ground arith

stored_elsewhere :
    (p page frame : ℕ) (m : Table) → p ≢ page → (if p == page then some frame else m p) ≡ m p
stored_elsewhere p page frame m h = ground (arith, h)

mapper-maps :
    (page frame : ℕ) (a a' : BootInfoFrameAllocator) (m m' : Table)
    → mapper.map_to page frame a m ≡ (none, a', m')
    → (frame_of m' page ≡ some frame)
      × ((p : ℕ) → p ≢ page → frame_of m' p ≡ frame_of m p)
      × (a'.memory_regions ≡ a.memory_regions)
      × (a.next ≤ a'.next)
mapper-maps page frame a a' m m' h =
    let same_table = sym (ap (λ r. r.2) h) in
    let same_frames : a ≡ a' = ap (λ r. r.1) h in
    (
      ap (λ t. t page) same_table ∙ stored_here page frame m,
      (λ p other. ap (λ t. t p) same_table ∙ stored_elsewhere p page frame m other),
      sym (ap (λ (a : BootInfoFrameAllocator). a.memory_regions) same_frames),
      omega (arith, ap (λ (a : BootInfoFrameAllocator). a.next) same_frames),
    )

mapper-IsTable : IsTable mapper frame_of
mapper-IsTable = record { maps = mapper-maps }

abbrev empty_table : Table
empty_table p = none

heap_run : init_heap mapper frames empty_table ≡ (
  (none, some (heap_start, heap_size)),
  (init_heap mapper frames empty_table).1,
  (init_heap mapper frames empty_table).2,
)
unfolding init_heap
heap_run = refl

init_heap-backs_example :
    ◌≡◌ {A = Option (ℕ × ℕ)} (some (heap_start, heap_size)) (some (heap_start, heap_size))
    × IsBacked mapper frame_of mapper-IsTable regions regions-IsOrdered 0
        (init_heap mapper frames empty_table).2
        heap_pages
    × ((addr : ℕ)
        → heap_start ≤ addr
        → addr < heap_start + heap_size
        → (frame : ℕ) × (frame_of (init_heap mapper frames empty_table).2 (containing_address addr)
            ≡ some frame)
          × IsUsable regions frame)
init_heap-backs_example =
    init_heap-backs mapper frame_of mapper-IsTable regions regions-IsOrdered frames
      (init_heap mapper frames empty_table).1 empty_table (init_heap mapper frames empty_table).2
      (some (heap_start, heap_size)) refl heap_run
