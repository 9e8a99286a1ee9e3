-- ===== src/Firmware.antt =====
-- kernel/Firmware.
pub mod Acpi
