-- ===== src/Cut.antt =====
-- internal/applets/shellutils/cut/cut.go: remove sections from each line of files.
pub mod Ranges
pub mod Lines
pub mod Command
mod Tests
