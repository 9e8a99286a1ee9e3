-- ===== src/Memory/Paging.antt =====
-- kernel/Memory/Paging.h and Paging.cpp: the four-level page tables of x86-64. The lock of a state is
-- held over each operation, so one runs alone. The TLB and CR3 are outside these files.
pub mod Entries
pub mod Tree
pub mod Link
pub mod Ensure
pub mod Write
pub mod Descend
pub mod Map
pub mod Copy
pub mod Range
pub mod Unmap
pub mod Shape
pub mod Keeps
pub mod Release
use boreal_os.Base.{
  ℕ, zero, suc, ◌+◌, ◌-◌, ◌*◌, ◌/◌, ◌%◌, ◌^◌, ◌<◌, ◌≡◌, Bool, true, false, not, ◌&&◌, ◌||◌, ltb,
  leb, ◌==◌, if◌then◌else◌, Outcome, ok, panic, unaligned_virtual, unaligned_physical,
  no_table_frame, already_mapped, not_mapped, no_virtual_range, ◌>>=◌, Option, none, some, bit_and,
  bit_or, add64, sub64, mul64,
}
use boreal_os.Base.Store.{Store, store}
use boreal_os.Memory.Pmm.{Pmm, page_size, allocate_pages, free_pages}

-- `Flags`
abbrev pub present : ℕ
present = 0x1

abbrev pub read_write : ℕ
read_write = 0x2

abbrev pub user : ℕ
user = 0x4

abbrev pub huge_page : ℕ
huge_page = 0x80

abbrev pub pointer_mask : ℕ
pointer_mask = 0x000F_FFFF_FFFF_F000

abbrev pub flags_mask : ℕ
flags_mask = 0xFFF0_0000_0000_0FFF

-- `Present | ReadWrite | User`
abbrev pub directory_flags : ℕ
directory_flags = 0x7

-- The frame allocator, and the 64-bit words of the frames that hold tables, by their physical
-- address. The frames of the bitmaps are reserved, so no table ever lies in one.
pub record Machine : Type 0 where
  pub pmm : Pmm
  pub words : Store

-- `table->entries[index]`
abbrev pub entry_at : ℕ → ℕ → ℕ
entry_at table index = table + 8 * index

unfoldable pub pml4_index : ℕ → ℕ
pml4_index v = bit_and (v / 2 ^ 39) 0x1FF

unfoldable pub pdp_index : ℕ → ℕ
pdp_index v = bit_and (v / 2 ^ 30) 0x1FF

unfoldable pub pd_index : ℕ → ℕ
pd_index v = bit_and (v / 2 ^ 21) 0x1FF

unfoldable pub pt_index : ℕ → ℕ
pt_index v = bit_and (v / 2 ^ 12) 0x1FF

unfoldable pub page_offset : ℕ → ℕ
page_offset v = bit_and v 0xFFF

-- `entry & Flags::Present`, as a condition.
unfoldable pub is_present : ℕ → Bool
is_present entry = not (bit_and entry present == 0)

-- `__builtin_memset(table, 0, 4096)`, word by word.
unfoldable pub clear_words : ℕ → ℕ → Store → Store
clear_words zero address w = w
clear_words (suc left) address w = clear_words left (address + 8) (store w address 0)

-- One step of `MapPage`: an entry that is 0 gets a new, cleared table; the table it points to is
-- the result.
unfoldable pub ensure_table : Machine → ℕ → ℕ → Outcome (Machine × ℕ)
unfolding clear_words
ensure_table m table index =
    if m.words (entry_at table index) == 0
    then (do
      (pmm, frame) ← allocate_pages m.pmm 1
      if frame == 0
          then panic no_table_frame
          else ok (
            record {
              pmm = pmm;
              words =
                  store (clear_words 512 frame m.words) (entry_at table index)
                    (bit_or frame directory_flags);
            },
            bit_and (bit_or frame directory_flags) pointer_mask,
          ))
    else ok (m, bit_and (m.words (entry_at table index)) pointer_mask)

-- The three levels above the entry of a page.
unfoldable pub descend : ℕ → ℕ → Machine → Outcome (Machine × ℕ)
descend pml4 v m = do
  (m, pdp) ← ensure_table m pml4 (pml4_index v)
  (m, pd) ← ensure_table m pdp (pdp_index v)
  ensure_table m pd (pd_index v)

unfoldable pub map_page : ℕ → ℕ → ℕ → ℕ → Machine → Outcome Machine
map_page pml4 v p flags m =
    if not (bit_and v (page_size - 1) == 0)
    then panic unaligned_virtual
    else if not (bit_and p (page_size - 1) == 0)
    then panic unaligned_physical
    else do
      (m, pt) ← descend pml4 v m
      if is_present (m.words (entry_at pt (pt_index v)))
          then panic already_mapped
          else ok (record m {
            words =
                store m.words (entry_at pt (pt_index v))
                  (bit_or (bit_and p pointer_mask) (bit_or flags present));
          })

-- `entry & PointerMask`, if the entry is present.
unfoldable pub next_table : Machine → ℕ → ℕ → Option ℕ
next_table m table index =
    let entry = m.words (entry_at table index) in
    if is_present entry then some (bit_and entry pointer_mask) else none

-- A chain of steps that may find no entry.
abbrev pub or_zero : Option ℕ → (ℕ → ℕ) → ℕ
or_zero none f = 0
or_zero (some a) f = f a

-- 0 stands for a page that is not mapped.
unfoldable pub get_physical_address : ℕ → ℕ → Machine → ℕ
get_physical_address pml4 v m = or_zero (next_table m pml4 (pml4_index v)) λ pdp.
    or_zero (next_table m pdp (pdp_index v)) λ pd.
      or_zero (next_table m pd (pd_index v))
        λ pt. or_zero (next_table m pt (pt_index v)) λ page. bit_or page (page_offset v)

unfoldable pub is_mapped : ℕ → ℕ → Machine → Bool
is_mapped pml4 v m = not (get_physical_address pml4 v m == 0)

-- `table[i] & Present` for the entries from `index` on.
unfoldable pub is_table_empty : ℕ → ℕ → ℕ → Machine → Bool
is_table_empty zero index table m = true
is_table_empty (suc left) index table m = elim (is_present (m.words (entry_at table index))) [
  | true ↦ false
  | false ↦ is_table_empty left (index + 1) table m
]

abbrev pub found : Option ℕ → Outcome ℕ
found none = panic not_mapped
found (some a) = ok a

abbrev pub clear_entry : ℕ → ℕ → Machine → Machine
clear_entry table index m = record m { words = store m.words (entry_at table index) 0 }

-- If `table` is empty and `allowed`, it is freed and its entry in `parent` cleared; the answer says
-- whether that was done.
unfoldable pub release_table : Bool → ℕ → ℕ → ℕ → Machine → Outcome (Machine × Bool)
release_table allowed table parent index m =
    if is_table_empty 512 0 table m && allowed
    then (do
      pmm ← free_pages m.pmm table 1
      ok (clear_entry parent index (record m { pmm = pmm }), true))
    else ok (m, false)

unfoldable pub unmap_page : ℕ → ℕ → Machine → Outcome Machine
unmap_page pml4 v m = do
  pdp ← found (next_table m pml4 (pml4_index v))
  pd ← found (next_table m pdp (pdp_index v))
  pt ← found (next_table m pd (pd_index v))
  page ← found (next_table m pt (pt_index v))
  (m, gone) ← release_table true pt pd (pd_index v) (clear_entry pt (pt_index v) m)
  if not gone then ok m else do
    (m, gone) ← release_table true pd pdp (pdp_index v) m
    if not gone
        then ok m
        else do (m, gone) ← release_table (ltb (pml4_index v) 256) pdp pml4 (pml4_index v) m; ok m

-- The search loop of `FindAvailableVirtualAddressRange`. The fuel bounds its rounds: `none` says that
-- it ran out.
unfoldable pub find_range_loop : ℕ → ℕ → ℕ → ℕ → ℕ → ℕ → Machine → Option (Outcome (ℕ × ℕ))
find_range_loop zero pml4 end pages current run m = none
find_range_loop (suc fuel) pml4 end pages current run m = elim (ltb current end) [
  | false ↦ some (panic no_virtual_range)
  | true ↦ elim (is_mapped pml4 current m) [
    | true ↦ find_range_loop fuel pml4 end pages (add64 current page_size) 0 m
    | false ↦ elim (run + 1 == pages) [
      | true ↦
          let start = sub64 current (mul64 (pages - 1) page_size) in
          some (ok (start, add64 start (mul64 pages page_size)))
      | false ↦ find_range_loop fuel pml4 end pages (add64 current page_size) (run + 1) m
    ]
  ]
]

unfoldable pub find_available_range : ℕ → ℕ → ℕ → ℕ → ℕ → Machine → Option (Outcome (ℕ × ℕ))
find_available_range fuel pml4 start end pages m = find_range_loop fuel pml4 end pages start 0 m

abbrev pub kernel_range_start : ℕ
kernel_range_start = 0xFFFF_FFFF_8000_0000

abbrev pub kernel_range_end : ℕ
kernel_range_end = 0xFFFF_FFFF_FFFF_F000

unfoldable pub find_available_kernel_range : ℕ → ℕ → ℕ → Machine → Option (Outcome (ℕ × ℕ))
find_available_kernel_range fuel kernel_pml4 count m =
    find_available_range fuel kernel_pml4 kernel_range_start kernel_range_end count m
