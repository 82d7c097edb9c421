-- ===== src/Chmod.antt =====
-- internal/applets/shellutils/chmod/chmod.go: the modes of chmod.
pub mod Modes
mod Tests
