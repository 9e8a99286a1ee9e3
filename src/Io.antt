-- ===== src/Io.antt =====
-- kernel/IO: the serial port.
pub mod Serial
