-- ===== src/Memory/Paging/Copy.antt =====
-- kernel/Memory/Paging.cpp: `Initialize`, which copies the tables that the boot loader left. `cr3` is an
-- argument; the load of CR3 at the end is outside the model.
pub mod Slot
pub mod Reserve
use boreal_os.Base.{
  ℕ, zero, suc, ◌+◌, ◌-◌, ◌*◌, Bool, true, false, not, ◌&&◌, ◌||◌, ◌==◌, if◌then◌else◌, Outcome, ok,
  panic, no_pml4_frame, no_copy_frame, no_reserved_frame, ◌>>=◌, bit_and, bit_or,
}
use boreal_os.Base.Store.{store}
use boreal_os.Memory.Pmm.{allocate_pages}
use boreal_os.Memory.Paging.{
  Machine, present, read_write, huge_page, pointer_mask, flags_mask, entry_at, is_present,
  clear_words,
}

abbrev pub write_entry : ℕ → ℕ → ℕ → Machine → Machine
write_entry table index entry m = record m { words = store m.words (entry_at table index) entry }

-- One round of the loop of `DeepCopyPageTables`; `deeper` is the call one level down. What
-- `AllocatePages` returns is not tested, and the source's entry is read again after the table is cleared.
unfoldable pub copy_entry :
    (ℕ → ℕ → Machine → Outcome Machine) → ℕ → ℕ → ℕ → ℕ → Machine → Outcome Machine
copy_entry deeper level i src dst m =
    let entry = m.words (entry_at src i) in
    if not (is_present entry)
    then ok m
    else if (level == 3 || level == 2) && not (bit_and entry huge_page == 0)
    then ok (write_entry dst i entry m)
    else if level == 1
    then ok (write_entry dst i entry m)
    else do
      (pmm, frame) ← allocate_pages m.pmm 1
      let words = clear_words 512 frame m.words
      let linked =
          store words (entry_at dst i) (bit_or frame (bit_and (words (entry_at src i)) flags_mask))
      deeper (bit_and (linked (entry_at src i)) pointer_mask) frame
          (record { pmm = pmm; words = linked })

unfoldable pub copy_loop :
    (ℕ → ℕ → Machine → Outcome Machine) → ℕ → ℕ → ℕ → ℕ → ℕ → Machine → Outcome Machine
copy_loop deeper level zero i src dst m = ok m
copy_loop deeper level (suc left) i src dst m = do
  m ← copy_entry deeper level i src dst m
  copy_loop deeper level left (i + 1) src dst m

-- Level 0 is never reached: a round at level 1 goes no deeper.
unfoldable pub deep_copy_page_tables : ℕ → ℕ → ℕ → Machine → Outcome Machine
deep_copy_page_tables zero src dst m = ok m
deep_copy_page_tables (suc level) src dst m =
    copy_loop (deep_copy_page_tables level) (suc level) 512 0 src dst m

-- The loop of `CopyExistingPageTableToNew`, from entry `i` on.
unfoldable pub copy_existing_loop : ℕ → ℕ → ℕ → ℕ → Machine → Outcome Machine
copy_existing_loop zero i limine pml4 m = ok m
copy_existing_loop (suc left) i limine pml4 m = elim (is_present (m.words (entry_at limine i))) [
  | false ↦ copy_existing_loop left (i + 1) limine pml4 m
  | true ↦ do
    (pmm, frame) ← allocate_pages m.pmm 1
    if frame == 0 then panic no_copy_frame else do
      m' ←
          deep_copy_page_tables 3 (bit_and (m.words (entry_at limine i)) pointer_mask) frame
            (record m { pmm = pmm })
      copy_existing_loop left (i + 1) limine pml4
          (write_entry pml4 i (bit_or (bit_and (m'.words (entry_at limine i)) flags_mask) frame) m')
]

-- One round of `ReserveHigherHalfPML4Slots`.
unfoldable pub reserve_slot : ℕ → ℕ → Machine → Outcome Machine
reserve_slot i pml4 m = if is_present (m.words (entry_at pml4 i)) then ok m else do
  (pmm, frame) ← allocate_pages m.pmm 1
  if frame == 0
      then panic no_reserved_frame
      else ok (record {
        pmm = pmm;
        words =
            store (clear_words 512 frame m.words) (entry_at pml4 i)
              (bit_or frame (bit_or present read_write));
      })

unfoldable pub reserve_loop : ℕ → ℕ → ℕ → Machine → Outcome Machine
reserve_loop zero i pml4 m = ok m
reserve_loop (suc left) i pml4 m = do m ← reserve_slot i pml4 m; reserve_loop left (i + 1) pml4 m

unfoldable pub reserve_higher_half_pml4_slots : ℕ → Machine → Outcome Machine
reserve_higher_half_pml4_slots pml4 m = reserve_loop 256 256 pml4 m

-- The state of the kernel, and the address of its PML4.
unfoldable pub initialize : ℕ → Machine → Outcome (Machine × ℕ)
initialize cr3 m = do
  (pmm, pml4) ← allocate_pages m.pmm 1
  if pml4 == 0 then panic no_pml4_frame else do
    m ←
        copy_existing_loop 512 0 cr3 pml4
          (record { pmm = pmm; words = clear_words 512 pml4 m.words })
    m ← reserve_higher_half_pml4_slots pml4 m
    ok (m, pml4)
