-- ===== src/Memory/Pmm.antt =====
-- kernel/Memory/PhysicalMemoryManager.cpp: the frame allocator over two bitmaps in memory.
pub mod Bitmap
pub mod Search
pub mod Marks
pub mod Alloc
pub mod Rounds
pub mod Free
pub mod Undo
pub mod Init
pub mod Refine
use boreal_os.Base.{
  ℕ, zero, suc, ◌+◌, ◌-◌, ◌*◌, ◌/◌, ◌%◌, ◌^◌, ◌≤◌, ◌<◌, ◌≡◌, Bool, true, false, not, ◌&&◌, ltb, leb,
  ◌==◌, if◌then◌else◌, Outcome, ok, panic, page_out_of_bounds, invalid_start, free_reserved,
  free_unallocated, ◌>>=◌,
}
use boreal_os.Base.Store.{Store}
use boreal_os.Memory.Run.{count}
use Bitmap.{page_bit, set_page, clear_page}

abbrev pub page_size : ℕ
page_size = 4096

-- The fields of the class, and the physical memory that the two bitmap pointers point into. The
-- code reaches it through the direct map, which adds one offset to every address.
pub record Pmm : Type 0 where
  pub frame_count : ℕ
  pub usable_frames : ℕ
  pub bitmap_size : ℕ
  pub allocatable_bitmap : ℕ
  pub reserved_bitmap : ℕ
  pub memory : Store

unfoldable pub is_page_reserved : Pmm → ℕ → Outcome Bool
is_page_reserved s page =
    if leb s.bitmap_size (page / 8)
    then panic page_out_of_bounds
    else ok (page_bit s.reserved_bitmap page s.memory)

unfoldable pub is_page_allocated : Pmm → ℕ → Outcome Bool
is_page_allocated s page =
    if leb s.bitmap_size (page / 8)
    then panic page_out_of_bounds
    else ok (page_bit s.allocatable_bitmap page s.memory)

-- `!IsPageReserved(page) && !IsPageAllocated(page)`, the second call only if the first is false.
unfoldable pub is_page_free : Pmm → ℕ → Outcome Bool
is_page_free s page = do
  reserved ← is_page_reserved s page
  if reserved then ok false else (is_page_allocated s page >>= λ allocated. ok (not allocated))

-- `runStart` and `runLength`.
pub record Found : Type 0 where
  pub start : ℕ
  pub length : ℕ

unfoldable pub extend : ℕ → Found → Found
extend page r =
    if r.length == 0
    then record { start = page; length = 1 }
    else record { start = r.start; length = r.length + 1 }

-- The search loop of `AllocatePages`, with `left` pages still to look at. No counter passes
-- `_frameCount`, so none wraps.
unfoldable pub find_run : Pmm → ℕ → ℕ → ℕ → Found → Outcome Found
find_run s pages zero page r = ok r
find_run s pages (suc left) page r = do
  free ← is_page_free s page
  elim free [
    | true ↦ elim ((extend page r).length == pages) [
      | true ↦ ok (extend page r)
      | false ↦ find_run s pages left (page + 1) (extend page r)
    ]
    | false ↦ find_run s pages left (page + 1) (record r { length = 0 })
  ]

-- `for (page = runStart; page < runStart + pageCount; page++)`, with `left` rounds to go.
unfoldable pub mark_pages : ℕ → ℕ → ℕ → Store → Store
mark_pages base zero page m = m
mark_pages base (suc left) page m = mark_pages base left (page + 1) (set_page base page m)

-- The state after a run was found: its pages are marked and no longer counted as usable.
unfoldable pub take_run : Pmm → ℕ → ℕ → Pmm
take_run s pages start = record s {
  memory = mark_pages s.allocatable_bitmap pages start s.memory;
  usable_frames = (s.usable_frames + 2 ^ 64 - pages) % 2 ^ 64;
}

-- Address 0 stands for failure.
unfoldable pub allocate_pages : Pmm → ℕ → Outcome (Pmm × ℕ)
allocate_pages s pages = if pages == 0 then ok (s, 0) else do
  r ← find_run s pages s.frame_count 0 (record { start = 0; length = 0 })
  if ltb r.length pages
      then ok (s, 0)
      else ok (take_run s pages r.start, (r.start * page_size) % 2 ^ 64)

-- One round of the loop of `FreePages`: the three checks, then the bit.
unfoldable pub free_page : Pmm → ℕ → Outcome Pmm
free_page s page = if leb s.bitmap_size (page / 8) then panic page_out_of_bounds else do
  reserved ← is_page_reserved s page
  if reserved then panic free_reserved else do
    allocated ← is_page_allocated s page
    if not allocated
        then panic free_unallocated
        else ok (record s { memory = clear_page s.allocatable_bitmap page s.memory })

unfoldable pub free_loop : ℕ → ℕ → Pmm → Outcome Pmm
free_loop zero page s = ok s
free_loop (suc left) page s = free_page s page >>= λ s'. free_loop left (page + 1) s'

-- `endPage` may wrap, and the loop then makes no round.
unfoldable pub free_pages : Pmm → ℕ → ℕ → Outcome Pmm
free_pages s start pages = if not (start % page_size == 0) then panic invalid_start else do
  let first = start / page_size
  s' ← free_loop ((first + pages) % 2 ^ 64 - first) first s
  ok (record s' { usable_frames = (s'.usable_frames + pages) % 2 ^ 64 })

-- What the bitmaps say of a page.
unfoldable pub reserved_at : Pmm → ℕ → Bool
reserved_at s page = page_bit s.reserved_bitmap page s.memory

unfoldable pub allocated_at : Pmm → ℕ → Bool
allocated_at s page = page_bit s.allocatable_bitmap page s.memory

abbrev pub free_at : Pmm → ℕ → Bool
free_at s page = not (reserved_at s page) && not (allocated_at s page)

-- The bitmaps lie one after the other and cover all frames, the first MiB is reserved, and
-- `_usableFrames` is the number of free pages.
pub record IsValid (s : Pmm) : Type 0 where
  pub bytes : (a : ℕ) → s.memory a < 256
  pub frames : s.frame_count ≡ s.bitmap_size * 8
  pub adjacent : s.reserved_bitmap ≡ s.allocatable_bitmap + s.bitmap_size
  pub fits : s.frame_count * page_size ≤ 2 ^ 64
  pub low : (page : ℕ) → page < 256 → reserved_at s page ≡ true
  pub counted : s.usable_frames ≡ count (free_at s) s.frame_count
