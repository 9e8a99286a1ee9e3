-- ===== src/Utility.antt =====
-- kernel/Utility: arithmetic, and numbers as text.
pub mod Math
pub mod Formatter
pub mod Strings
pub mod CommandLine
