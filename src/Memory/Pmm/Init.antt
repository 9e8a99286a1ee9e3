-- ===== src/Memory/Pmm/Init.antt =====
-- `PhysicalMemoryManager::Initialize` and its self test: the bitmaps are placed in a usable region
-- of the boot loader's memory map and filled in.
pub mod Fill
pub mod Bitmaps
pub mod Place
pub mod Entries
pub mod SetUp
use boreal_os.Base.{
  ℕ, zero, suc, ◌+◌, ◌-◌, ◌*◌, ◌/◌, ◌%◌, ◌^◌, ◌≤◌, ◌<◌, ◌≡◌, Bool, true, false, not, ◌&&◌, ltb, leb,
  ◌==◌, if◌then◌else◌, Outcome, ok, panic, no_memory_map, no_hhdm, no_bitmap_region, failed_test,
  ◌>>=◌, Option, none, some, List, [], ◌∷◌, add64, sub64, mul64,
}
use boreal_os.Base.Store.{Store, store}
use boreal_os.Utility.Math.{align_up, align_down}
use boreal_os.Memory.Pmm.{Pmm, page_size, mark_pages, allocate_pages, free_pages}
use boreal_os.Memory.Pmm.Bitmap.{page_bit, clear_page}

-- An entry of the memory map of the boot loader: `base`, `length` and `type`.
pub record Entry : Type 0 where
  pub base : ℕ
  pub length : ℕ
  pub kind : ℕ

-- An element of `validRegions`.
pub record Region : Type 0 where
  pub addr : ℕ
  pub length : ℕ

abbrev pub usable_kind : ℕ
usable_kind = 0

abbrev pub mebibyte : ℕ
mebibyte = 1048576

unfoldable pub is_valid_entry : Entry → Bool
is_valid_entry e = e.kind == usable_kind && not (leb (add64 e.base e.length) mebibyte)

-- The loop over the entries, by what it collects: the regions, and the greatest end.
unfoldable pub valid_regions : List Entry → List Region
valid_regions [] = []
valid_regions (e ∷ es) =
    let rest = valid_regions es in
    if is_valid_entry e then record { addr = e.base; length = e.length } ∷ rest else rest

unfoldable pub end_address : ℕ → List Entry → ℕ
end_address top [] = top
end_address top (e ∷ es) =
    let end = add64 e.base e.length in
    end_address (if is_valid_entry e && ltb top end then end else top) es

-- The whole pages of a region.
unfoldable pub region_start : Region → ℕ
region_start r = align_up r.addr page_size

unfoldable pub region_end : Region → ℕ
region_end r = align_down (add64 r.addr r.length) page_size

unfoldable pub region_size : Region → ℕ
unfolding region_start region_end
region_size r = if ltb (region_start r) (region_end r) then region_end r - region_start r else 0

-- The first region with room for the bitmaps: the address of its first page, and the regions with
-- that room taken away from it. Address 0 stands for `nullptr`.
unfoldable pub place : ℕ → List Region → ℕ × List Region
unfolding region_size
place need [] = (0, [])
place need (r ∷ rs) =
    let (start, rest) = place need rs in
    if leb need (region_size r)
    then (region_start r, record { addr = add64 r.addr need; length = sub64 r.length need } ∷ rs)
    else (start, r ∷ rest)

-- Both bitmaps are filled with 0xFF, a byte of each in every round.
unfoldable pub fill_both : ℕ → ℕ → ℕ → ℕ → Store → Store
fill_both allocatable reserved zero i m = m
fill_both allocatable reserved (suc left) i m =
    fill_both allocatable reserved left (i + 1)
      (store (store m (allocatable + i) 0xff) (reserved + i) 0xff)

-- `for (addr = start; addr < end; addr += PageSize)`, with `left` rounds to go.
unfoldable pub clear_addresses : ℕ → ℕ → ℕ → Store → Store
clear_addresses reserved zero addr m = m
clear_addresses reserved (suc left) addr m =
    clear_addresses reserved left (addr + page_size) (clear_page reserved (addr / page_size) m)

unfoldable pub clear_regions : ℕ → List Region → Store → Store
unfolding region_start region_end clear_addresses
clear_regions reserved [] m = m
clear_regions reserved (r ∷ rs) m = clear_regions reserved rs (
    clear_addresses reserved ((region_end r - region_start r + (page_size - 1)) / page_size)
      (region_start r) m)

unfoldable pub zero_bytes : ℕ → ℕ → ℕ → Store → Store
zero_bytes base zero i m = m
zero_bytes base (suc left) i m = zero_bytes base left (i + 1) (store m (base + i) 0)

-- The loop that counts the pages that are not reserved.
unfoldable pub count_usable : ℕ → Store → ℕ → ℕ → ℕ → ℕ
count_usable reserved m zero i total = total
count_usable reserved m (suc left) i total =
    count_usable reserved m left (i + 1) (if page_bit reserved i m then total else total + 1)

unfoldable pub bitmap_bytes : List Entry → ℕ
unfolding end_address
bitmap_bytes es = align_up ((end_address 0 es / page_size + 7) / 8) page_size

-- The bitmaps after all loops, at `base`; `regions` are those that `place` left.
unfoldable pub fill_bitmaps : ℕ → ℕ → List Region → Store → Store
unfolding fill_both clear_regions zero_bytes
fill_bitmaps size base regions m =
    let reserved = base + size in
    let filled = fill_both base reserved size 0 m in
    let cleared = clear_regions reserved regions filled in
    let low = mark_pages reserved (mebibyte / page_size) 0 cleared in
    let first = base / page_size in
    let last = align_up (add64 first (mul64 size 2)) page_size / page_size in
    let own = mark_pages reserved (last - first) first low in zero_bytes base size 0 own

unfoldable pub set_up : List Entry → Store → Outcome Pmm
unfolding valid_regions place bitmap_bytes fill_bitmaps count_usable
set_up es m =
    let size = bitmap_bytes es in
    let (base, regions) = place (mul64 size 2) (valid_regions es) in
    let filled = fill_bitmaps size base regions m in
    let frames = mul64 size 8 in
    if base == 0
    then panic no_bitmap_region
    else ok (record {
      frame_count = frames;
      usable_frames = count_usable (base + size) filled frames 0 0;
      bitmap_size = size;
      allocatable_bitmap = base;
      reserved_bitmap = base + size;
      memory = filled;
    })

-- Ten MiB, in pages.
abbrev pub large_request : ℕ
large_request = 10 * mebibyte / page_size

-- The failures that `TestAllocationAndFreeing` sees are logged, and it returns true all the same.
unfoldable pub test_allocation_and_freeing : Pmm → Outcome (Pmm × Bool)
test_allocation_and_freeing s = do
  (s, one) ← allocate_pages s 1
  (s, two) ← allocate_pages s 2
  (s, many) ← allocate_pages s large_request
  s ← free_pages s one 1
  s ← free_pages s two 2
  s ← free_pages s many large_request
  (s, one) ← allocate_pages s 1
  (s, two) ← allocate_pages s 2
  (s, many) ← allocate_pages s large_request
  s ← free_pages s one 1
  s ← free_pages s two 2
  s ← free_pages s many large_request
  ok (s, true)

-- The responses of the boot loader are pointers that may be null; the offset of the direct map
-- drops out of every access.
unfoldable pub initialize : Option (List Entry) → Option ℕ → Store → Outcome Pmm
initialize none hhdm m = panic no_memory_map
initialize (some es) none m = panic no_hhdm
initialize (some es) (some offset) m = do
  s ← set_up es m
  (s, passed) ← test_allocation_and_freeing s
  if passed then ok s else panic failed_test
