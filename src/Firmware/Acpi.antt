-- ===== src/Firmware/Acpi.antt =====
-- kernel/Firmware/ACPI.cpp: the checks on firmware tables, and the walk over the entries of the
-- interrupt controller table. Tables lie in physical memory; the offset of the direct map drops out of
-- every access, and address 0 stands for a null pointer.
pub mod Checks
pub mod Entries
pub mod Tables
use boreal_os.Base.{
  ℕ, zero, suc, ◌+◌, ◌-◌, ◌*◌, ◌^◌, ◌<◌, Bool, true, false, not, ◌&&◌, ltb, leb, ◌==◌,
  if◌then◌else◌, u8, Option, none, some,
}
use boreal_os.Base.Store.{Store}

-- A little-endian number of four bytes.
unfoldable pub read_u32 : ℕ → Store → ℕ
read_u32 a m = m a + m (a + 1) * 2 ^ 8 + m (a + 2) * 2 ^ 16 + m (a + 3) * 2 ^ 24

-- The loop that adds bytes in a `uint8_t`.
unfoldable pub sum_loop : ℕ → ℕ → ℕ → ℕ → Store → ℕ
sum_loop zero i base sum m = sum
sum_loop (suc left) i base sum m = sum_loop left (i + 1) base (u8 (sum + m (base + i))) m

abbrev pub rsdp_size : ℕ
rsdp_size = 20

abbrev pub xsdp_size : ℕ
xsdp_size = 36

abbrev pub sdt_header_size : ℕ
sdt_header_size = 36

unfoldable pub validate_rsdp : ℕ → Store → Bool
validate_rsdp rsdp m = if rsdp == 0 then false else sum_loop rsdp_size 0 rsdp 0 m == 0

-- The length of an XSDP stands behind the fields of an RSDP and its own.
unfoldable pub validate_xsdp : ℕ → Store → Bool
validate_xsdp xsdp m =
    if xsdp == 0
    then false
    else if not (validate_rsdp xsdp m)
    then false
    else if ltb (read_u32 (xsdp + 20) m) xsdp_size
    then false
    else sum_loop (read_u32 (xsdp + 20) m) 0 xsdp 0 m == 0

unfoldable pub validate_sdt : ℕ → Store → Bool
validate_sdt sdt m =
    if sdt == 0
    then false
    else if ltb (read_u32 (sdt + 4) m) sdt_header_size
    then false
    else sum_loop (read_u32 (sdt + 4) m) 0 sdt 0 m == 0

-- `sizeof(MADT)`: the header and two numbers of four bytes.
abbrev pub madt_size : ℕ
madt_size = 44

-- The loop of `FindMADTEntryCount` from `current` on, on fuel: `none` says that it ran out. An
-- entry's type and length are its first two bytes.
unfoldable pub count_loop : ℕ → ℕ → ℕ → ℕ → ℕ → Store → Option ℕ
count_loop zero current end type count m = none
count_loop (suc fuel) current end type count m = elim (ltb current end) [
  | false ↦ some count
  | true ↦
      count_loop fuel (current + m (current + 1)) end type
        (if m current == type then count + 1 else count) m
]

unfoldable pub find_madt_entry_count : ℕ → ℕ → ℕ → Store → Option ℕ
find_madt_entry_count fuel madt type m =
    count_loop fuel (madt + madt_size) (madt + read_u32 (madt + 4) m) type 0 m

-- The loop of `FindMADTEntry`; the answer is 0 where there is no such entry.
unfoldable pub find_loop : ℕ → ℕ → ℕ → ℕ → ℕ → Store → Option ℕ
find_loop zero current end type index m = none
find_loop (suc fuel) current end type index m = elim (ltb current end) [
  | false ↦ some 0
  | true ↦ elim (m current == type) [
    | true ↦ elim (index == 0) [
      | true ↦ some current
      | false ↦ find_loop fuel (current + m (current + 1)) end type (index - 1) m
    ]
    | false ↦ find_loop fuel (current + m (current + 1)) end type index m
  ]
]

unfoldable pub find_madt_entry : ℕ → ℕ → ℕ → ℕ → Store → Option ℕ
find_madt_entry fuel madt type index m =
    find_loop fuel (madt + madt_size) (madt + read_u32 (madt + 4) m) type index m
