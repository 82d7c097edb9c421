-- ===== src/Diff.antt =====
-- internal/applets/editors/diff: compare two text files line by line.
pub mod Lines
pub mod Normal
pub mod Unified
pub mod Command
mod Tests
