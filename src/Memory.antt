-- ===== src/Memory.antt =====
-- kernel/src/memory.rs: the frame allocator, and kernel/src/allocator.rs: the mapping of the heap.
-- A frame or a page is the address of its first byte. Memory regions come from the bootloader, and
-- the page table is outside: `map_to` of a mapper changes a state `M`.
pub mod Frames
pub mod Heap
use willo_main.Prelude.{
  ℕ, zero, suc, ◌+◌, ◌-◌, ◌*◌, ◌/◌, ◌%◌, Bool, Option, none, some, List, [], ◌∷◌, ◌++◌, map,
  if◌then◌else◌, get_elem?,
}

abbrev pub page_size : ℕ
page_size = 4096

-- `MemoryRegion`, with the test for `MemoryRegionKind::Usable`.
pub record MemoryRegion : Type 0 where
  pub start : ℕ
  pub stop : ℕ
  pub usable : Bool

pub record BootInfoFrameAllocator : Type 0 where
  pub memory_regions : List MemoryRegion
  pub next : ℕ

unfoldable pub new : List MemoryRegion → BootInfoFrameAllocator
new regions = record { memory_regions = regions; next = 0 }

-- `containing_address` of `PhysFrame` and of `Page`.
abbrev pub containing_address : ℕ → ℕ
containing_address addr = addr - addr % page_size

-- `count` addresses from `addr` on, a page apart.
unfoldable pub steps : ℕ → ℕ → List ℕ
steps zero addr = []
steps (suc count) addr = addr ∷ steps count (addr + page_size)

-- `(start..stop).step_by(4096)`
unfoldable pub step_by : ℕ → ℕ → List ℕ
unfolding steps
step_by start stop = steps ((stop - start + (page_size - 1)) / page_size) start

unfoldable pub usable_frames : List MemoryRegion → List ℕ
unfolding step_by
usable_frames [] = []
usable_frames (r ∷ regions) =
    let rest = usable_frames regions in
    if r.usable then map containing_address (step_by r.start r.stop) ++ rest else rest

unfoldable pub allocate_frame : BootInfoFrameAllocator → Option ℕ × BootInfoFrameAllocator
unfolding usable_frames
allocate_frame a =
    (get_elem? (usable_frames a.memory_regions) a.next, record a { next = a.next + 1 })

abbrev pub heap_start : ℕ
heap_start = 75059993772032

abbrev pub heap_size : ℕ
heap_size = 262144

-- `MapToError`: a frame that is missing, or an error of the page table.
pub data MapToError : Type 0 where
  frame_allocation_failed mapping_failed : MapToError

-- `Mapper::map_to` of a page to a frame, present and writable, with the allocator for the frames of
-- the table itself, and `flush`; `none` is success.
pub record Mapper (M : Type 0) : Type 0 where
  pub map_to : ℕ → ℕ → BootInfoFrameAllocator → M → Option MapToError × BootInfoFrameAllocator × M

-- `Page::range_inclusive`
unfoldable pub heap_pages : List ℕ
unfolding steps
heap_pages =
    let first = containing_address heap_start in
    let last = containing_address (heap_start + (heap_size - 1)) in
    steps ((last - first) / page_size + 1) first

-- An error, the allocator and the page table, after a step of `init_heap`.
abbrev pub Mapped : Type 0 → Type 0
Mapped M = Option MapToError × BootInfoFrameAllocator × M

-- The `?` operator.
abbrev pub and_then : {M : Type 0} → Mapped M → (BootInfoFrameAllocator → M → Mapped M) → Mapped M
and_then (some e, a, m) next = (some e, a, m)
and_then (none, a, m) next = next a m

-- The start and the size that the heap is given when all pages are mapped.
abbrev pub heap_of :
    {M : Type 0} → Mapped M → (Option MapToError × Option (ℕ × ℕ)) × BootInfoFrameAllocator × M
heap_of (some e, a, m) = ((some e, none), a, m)
heap_of (none, a, m) = ((none, some (heap_start, heap_size)), a, m)

module _ {M : Type 0} (mapper : Mapper M) where
  abbrev pub map_frame : ℕ → Option ℕ × BootInfoFrameAllocator → M → Mapped M
  map_frame page (none, a) m = (some frame_allocation_failed, a, m)
  map_frame page (some frame, a) m = mapper.map_to page frame a m

  -- The body of the loop of `init_heap`.
  unfoldable pub map_page : ℕ → BootInfoFrameAllocator → M → Mapped M
  unfolding allocate_frame
  map_page page a m = map_frame page (allocate_frame a) m

  unfoldable pub map_pages : List ℕ → BootInfoFrameAllocator → M → Mapped M
  unfolding map_page
  map_pages [] a m = (none, a, m)
  map_pages (page ∷ pages) a m = and_then (map_page page a m) (map_pages pages)

  unfoldable pub init_heap :
      BootInfoFrameAllocator → M → (Option MapToError × Option (ℕ × ℕ)) × BootInfoFrameAllocator × M
  unfolding map_pages heap_pages
  init_heap a m = heap_of (map_pages heap_pages a m)
