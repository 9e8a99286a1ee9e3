-- ===== src/Interrupts/Idt.antt =====
-- kernel/Interrupts/IDT.h and IDT.cpp: the interrupt descriptor table and the table of handlers. A
-- handler or a saved register frame is its address, and 0 stands for `nullptr`.
pub mod Table
pub mod Irq
use boreal_os.Base.{
  ℕ, zero, suc, ◌+◌, ◌*◌, ◌/◌, ◌^◌, Bool, true, false, ◌==◌, leb, if◌then◌else◌, bit_and, u8,
}
use boreal_os.Base.Store.{Store, store}

-- `IDTEntry`
pub record IdtEntry : Type 0 where
  pub offset_low : ℕ
  pub selector : ℕ
  pub ist : ℕ
  pub type_attribute : ℕ
  pub offset_middle : ℕ
  pub offset_high : ℕ
  pub reserved : ℕ

-- The entries of the table, by vector.
unfoldable pub put : (ℕ → IdtEntry) → ℕ → IdtEntry → ℕ → IdtEntry
put entries vector e = λ x. if vector == x then e else entries x

unfoldable pub make_entry : ℕ → ℕ → IdtEntry
make_entry isr flags = record {
  offset_low = bit_and isr 0xFFFF;
  selector = 0x08;
  ist = 0;
  type_attribute = flags;
  offset_middle = bit_and (isr / 2 ^ 16) 0xFFFF;
  offset_high = bit_and (isr / 2 ^ 32) 0xFFFFFFFF;
  reserved = 0;
}

unfoldable pub set_idt_entry : ℕ → ℕ → ℕ → (ℕ → IdtEntry) → ℕ → IdtEntry
set_idt_entry vector isr flags entries = put entries vector (make_entry isr flags)

-- The loop of `Initialize` over the vectors; the counter is cut to a byte.
unfoldable pub fill_loop : ℕ → ℕ → (ℕ → ℕ) → (ℕ → IdtEntry) → ℕ → IdtEntry
fill_loop zero vec stubs entries = entries
fill_loop (suc left) vec stubs entries =
    fill_loop left (vec + 1) stubs (set_idt_entry (u8 vec) (stubs vec) 0x8E entries)

unfoldable pub use_ist : ℕ → (ℕ → IdtEntry) → ℕ → IdtEntry
use_ist vector entries = put entries vector (record (entries vector) { ist = 1 })

-- The table that `Initialize` builds.
unfoldable pub build_table : (ℕ → ℕ) → (ℕ → IdtEntry) → ℕ → IdtEntry
build_table stubs entries = use_ist 14 (use_ist 13 (use_ist 8 (fill_loop 256 0 stubs entries)))

pub record Handlers : Type 0 where
  pub exception_handlers : Store
  pub irq_handlers : Store
  pub registers_for_interrupts : Store

unfoldable pub register_exception_handler : ℕ → ℕ → Handlers → Handlers
register_exception_handler vector handler h =
    if leb 32 vector
    then h
    else record h { exception_handlers = store h.exception_handlers vector handler }

unfoldable pub register_irq_handler : ℕ → ℕ → Handlers → Handlers
register_irq_handler irq handler h = record h { irq_handlers = store h.irq_handlers irq handler }

unfoldable pub get_registers_for_interrupt : ℕ → Handlers → ℕ
get_registers_for_interrupt vector h = h.registers_for_interrupts vector
