-- ===== src/Interrupts.antt =====
-- The interrupt tables and controllers of kernel/Interrupts.
pub mod Vectors
pub mod Gdt
pub mod Ioapic
pub mod Idt
pub mod Lapic
