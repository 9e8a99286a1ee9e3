-- ===== src/Memory.antt =====
-- kernel/Memory: physical frames and page tables.
pub mod Run
pub mod Frames
pub mod Memops
pub mod Pmm
pub mod Paging
