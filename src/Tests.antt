-- ===== src/Tests.antt =====
-- Each theorem with a hypothesis, applied to a concrete state.
mod Pmm
mod Paging
mod MemoryMap
mod Text
mod Vectors
mod Descriptors
mod Redirection
mod Lock
mod Bytes
mod Firmware
mod CommandLine
mod Lapic
mod Tables
mod Serial
mod Unmap
