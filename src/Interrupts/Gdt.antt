-- ===== src/Interrupts/Gdt.antt =====
-- kernel/Interrupts/GDT.cpp and TSS.cpp: the segment descriptors and the task state of every CPU. `entries[cpuId][index]` is word
-- `8 * cpuId + index` of the array; the loads into CPU registers are outside the model.
pub mod Decode
use boreal_os.Base.{ℕ, ◌+◌, ◌-◌, ◌*◌, ◌/◌, ◌^◌, ◌==◌, if◌then◌else◌, bit_and, bit_or}
use boreal_os.Base.Store.{Store, store}

abbrev pub slot : ℕ → ℕ → ℕ
slot cpu index = 8 * cpu + index

-- `GDTEntry`, from its lowest byte on.
pub record GdtEntry : Type 0 where
  pub limit_low : ℕ
  pub base_low : ℕ
  pub base_middle : ℕ
  pub access : ℕ
  pub granularity : ℕ
  pub base_high : ℕ

-- The packed struct as one little-endian word.
unfoldable pub entry_word : GdtEntry → ℕ
entry_word e =
    e.limit_low
    + e.base_low * 2 ^ 16
    + e.base_middle * 2 ^ 32
    + e.access * 2 ^ 40
    + e.granularity * 2 ^ 48
    + e.base_high * 2 ^ 56

unfoldable pub make_entry : ℕ → ℕ → ℕ → ℕ → GdtEntry
make_entry base limit access granularity = record {
  limit_low = bit_and limit 0xFFFF;
  base_low = bit_and base 0xFFFF;
  base_middle = bit_and (base / 2 ^ 16) 0xFF;
  access = access;
  granularity = bit_or (bit_and (limit / 2 ^ 16) 0x0F) (bit_and granularity 0xF0);
  base_high = bit_and (base / 2 ^ 24) 0xFF;
}

unfoldable pub set_entry : ℕ → ℕ → ℕ → ℕ → ℕ → ℕ → Store → Store
set_entry cpu index base limit access granularity entries =
    store entries (slot cpu index) (entry_word (make_entry base limit access granularity))

unfoldable pub tss_low : ℕ → ℕ → ℕ
tss_low base limit =
    let low = bit_or 0 (bit_and limit 0xFFFF) in
    let low = bit_or low (bit_and base 0xFFFFFF * 2 ^ 16) in
    let low = bit_or low (0x89 * 2 ^ 40) in
    let low = bit_or low (bit_and (limit / 2 ^ 16) 0xF * 2 ^ 48) in
    bit_or low (bit_and (base / 2 ^ 24) 0xFF * 2 ^ 56)

unfoldable pub tss_high : ℕ → ℕ
tss_high base = bit_or 0 (bit_and (base / 2 ^ 32) 0xFFFFFFFF)

unfoldable pub set_tss_descriptor : ℕ → ℕ → ℕ → ℕ → Store → Store
set_tss_descriptor cpu index base limit entries =
    store (store entries (slot cpu index) (tss_low base limit)) (slot cpu (index + 1))
      (tss_high base)

-- `sizeof(TSSStruct)`: 12 words of 8 bytes, one of 4 and two of 2.
abbrev pub tss_size : ℕ
tss_size = 104

-- The descriptors that `Initialize` writes, with the address of the CPU's task state.
unfoldable pub write_descriptors : ℕ → ℕ → Store → Store
write_descriptors cpu tss_address entries =
    let entries = set_entry cpu 0 0 0 0 0 entries in
    let entries = set_entry cpu 1 0 0xFFFFF 0x9A 0xA0 entries in
    let entries = set_entry cpu 2 0 0xFFFFF 0x92 0xA0 entries in
    let entries = set_tss_descriptor cpu 3 tss_address (tss_size - 1) entries in
    let entries = set_entry cpu 5 0 0xFFFFF 0xF2 0xC0 entries in
    let entries = set_entry cpu 6 0 0xFFFFF 0xF2 0xA0 entries in
    set_entry cpu 7 0 0xFFFFF 0xFA 0xA0 entries

-- `TSSStruct`
pub record TaskState : Type 0 where
  pub reserved0 : ℕ
  pub rsp0 : ℕ
  pub rsp1 : ℕ
  pub rsp2 : ℕ
  pub reserved1 : ℕ
  pub ist1 : ℕ
  pub ist2 : ℕ
  pub ist3 : ℕ
  pub ist4 : ℕ
  pub ist5 : ℕ
  pub ist6 : ℕ
  pub ist7 : ℕ
  pub reserved2 : ℕ
  pub reserved3 : ℕ
  pub io_map_base : ℕ

abbrev pub cleared_task : TaskState
cleared_task = record {
  reserved0 = 0;
  rsp0 = 0;
  rsp1 = 0;
  rsp2 = 0;
  reserved1 = 0;
  ist1 = 0;
  ist2 = 0;
  ist3 = 0;
  ist4 = 0;
  ist5 = 0;
  ist6 = 0;
  ist7 = 0;
  reserved2 = 0;
  reserved3 = 0;
  io_map_base = 0;
}

-- `TSS::Initialize` on the array of the task states.
unfoldable pub initialize_task : ℕ → ℕ → ℕ → (ℕ → TaskState) → ℕ → TaskState
initialize_task cpu rsp0 ist1 tasks = λ i.
    if cpu == i
    then record cleared_task { rsp0 = rsp0; ist1 = ist1; io_map_base = tss_size }
    else tasks i

-- The array of the task states begins at `tss_base`.
abbrev pub get_tss_struct : ℕ → ℕ → ℕ
get_tss_struct tss_base cpu = tss_base + tss_size * cpu

pub record GdtPointer : Type 0 where
  pub limit : ℕ
  pub base : ℕ

-- The arrays of all CPUs.
pub record Segments : Type 0 where
  pub entries : Store
  pub tasks : ℕ → TaskState
  pub gdtp : ℕ → GdtPointer

-- `sizeof(entries[cpuId])`
abbrev pub table_size : ℕ
table_size = 64

-- `Initialize` up to the loads into registers. `entries` begins at `entries_base`.
unfoldable pub initialize : ℕ → ℕ → ℕ → ℕ → ℕ → Segments → Segments
initialize tss_base entries_base cpu rsp0 ts1 s = record {
  entries = write_descriptors cpu (get_tss_struct tss_base cpu) s.entries;
  tasks = initialize_task cpu rsp0 ts1 s.tasks;
  gdtp = λ i.
      if cpu == i
      then record { limit = table_size - 1; base = entries_base + table_size * cpu }
      else s.gdtp i;
}
