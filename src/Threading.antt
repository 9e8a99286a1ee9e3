-- ===== src/Threading.antt =====
-- kernel/Threading.
pub mod Spinlock
