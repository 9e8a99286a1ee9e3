-- ===== src/Lib.antt =====
-- The kernel of BorealOS: memory, interrupts, locks and text (src/kernel).
--
-- The parts and their files:
--   Memory/Pmm       src/kernel/Memory/PhysicalMemoryManager: the frame allocator over two bitmaps in
--                    physical memory. `Pmm` is its state, `allocate_pages`, `free_pages` and
--                    `initialize` its operations. Memory/Pmm/Init models the boot-time set-up.
--                    Memory/Frames is the specification that its callers see.
--   Memory/Paging    src/kernel/Memory/Paging: four-level page tables whose frames come from the frame
--                    allocator. `Machine` is the allocator with the words of the tables.
--   Memory/Memops    src/kernel/memops.cpp: memcpy, memmove, memset and memcmp over a byte store.
--   Interrupts       src/kernel/Interrupts: the vectors and the table of IDT, the descriptors of GDT
--                    with the task states of TSS, the controllers of IOAPIC and their manager, and the
--                    local controller of LAPIC, which gets its address from Memory/Paging.
--   Firmware         src/kernel/Firmware/ACPI: the checksums of the tables, their look-up, and the walks
--                    over the entries of the interrupt controller table.
--   Io               src/kernel/IO: the serial port.
--   Threading        src/kernel/Threading: the spinlock, as atomic steps of many processors.
--   Utility          src/kernel/Utility: Math.h at 64 bits, the numbers and format strings of
--                    Formatter, the strings of cstring and StringView, and the command line of
--                    CommandLineExtractor, whose values Formatter parses.
--   Base             tests, lists, words, bits, bit fields, stores and panics that the parts share.
--   Tests            each theorem with a hypothesis, applied to a concrete state.
--
-- A number is a native ℕ; where the source's type wraps around, `% 2 ^ w` is written out. Memory is a
-- function from addresses; the offset of the direct map drops out of every access and is left out. A
-- panic ends the run and is the value `panic` with its cause; log messages are left out. The lock of
-- each component is held over a whole operation, so an operation is one function; the spinlock's own
-- steps are in Threading. The response of the boot loader is an argument. Devices and ports are
-- operations on a world of any type.
--
-- Fuel: the loop of `WriteUnsigned` runs for 64 rounds, which empty any value below 2^64, as its round
-- trips show. The walks over firmware entries take fuel, and enough of it is shown to be the length of
-- the table and one. The loops over the command line take fuel for its size and two rounds more. The
-- loops that wait for a device take fuel, and return just if the device is ready within it. `IndexOf`
-- takes fuel for its indices and one round more; for a needle that is longer than the text its loop
-- reads past the text and may never end, so the values of the command line are shown for lines without
-- an empty argument. The search for a range of virtual addresses takes fuel for its pages and one round
-- more, and the loops over a format string for its length and one round more. All other loops are
-- recursions on the number of rounds that the source's bounds give.
--
-- Not modelled: the console, the set-up of the processor, floating point, and what assembly does to CPU
-- registers and the TLB, but for CR3 in the interrupt handler.
pub mod Base
pub mod Utility
pub mod Memory
pub mod Interrupts
pub mod Threading
pub mod Firmware
pub mod Io
mod Tests
