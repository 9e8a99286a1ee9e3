-- ===== src/Tests/Descriptors.antt =====
-- Descriptors of processor 0, and an interrupt table over stubs that lie 16 bytes apart.
use boreal_os.Base.{ℕ, ◌+◌, ◌-◌, ◌*◌, ◌^◌, ◌<◌, ◌≡◌, ◌≢◌, if◌then◌else◌, arith}
use boreal_os.Interrupts.Gdt.{
  slot, entry_word, make_entry, tss_size, initialize, Segments, cleared_task, get_tss_struct,
}
use boreal_os.Interrupts.Gdt.Decode.{base_of, limit_of, base_of-initialize}
use boreal_os.Interrupts.Idt.{IdtEntry, build_table}
use boreal_os.Interrupts.Idt.Table.{handler_of, has_own_stack, build_table_lem}

abbrev code : ℕ
code = entry_word (make_entry 0 0xFFFFF 0x9A 0xA0)

abbrev task_states : ℕ
task_states = 0xFFFFFFFF80123450

abbrev tables : ℕ
tables = 0xFFFFFFFF80200000

abbrev blank : Segments
blank = record {
  entries = λ a. 0;
  tasks = λ i. cleared_task;
  gdtp = λ i. record { limit = 0; base = 0 };
}

abbrev started : Segments
started = initialize task_states tables 1 0x8000 0x9000 blank

gdt_initialize_example :
    (base_of (started.entries (slot 1 3)) + started.entries (slot 1 4) * 2 ^ 32
      ≡ get_tss_struct task_states 1)
    × (limit_of (started.entries (slot 1 3)) ≡ tss_size - 1)
    × (started.tasks 1
        ≡ record cleared_task { rsp0 = 0x8000; ist1 = 0x9000; io_map_base = tss_size })
    × (started.gdtp 1 ≡ record { limit = 8 * 8 - 1; base = tables + 8 * slot 1 0 })
    × ((other : ℕ)
        → other ≢ 1
        → (started.tasks other ≡ blank.tasks other)
          × (started.gdtp other ≡ blank.gdtp other)
          × ((index : ℕ)
              → index < 8
              → started.entries (slot other index) ≡ blank.entries (slot other index)))
gdt_initialize_example = base_of-initialize task_states tables 1 0x8000 0x9000 blank (omega arith)

abbrev stubs : ℕ → ℕ
stubs vector = 0xFFFFFFFF80000000 + 16 * vector

abbrev no_entries : ℕ → IdtEntry
no_entries vector = record {
  offset_low = 0;
  selector = 0;
  ist = 0;
  type_attribute = 0;
  offset_middle = 0;
  offset_high = 0;
  reserved = 0;
}

build_table_example :
    (handler_of (build_table stubs no_entries 14) ≡ stubs 14)
    × ((build_table stubs no_entries 14).selector ≡ 0x08)
    × ((build_table stubs no_entries 14).type_attribute ≡ 0x8E)
    × ((build_table stubs no_entries 14).ist ≡ (if has_own_stack 14 then 1 else 0))
build_table_example = build_table_lem stubs no_entries 14 (omega arith) (omega arith)
