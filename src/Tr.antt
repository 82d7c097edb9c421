-- ===== src/Tr.antt =====
-- internal/applets/textutils/tr/tr.go: translate, squeeze or delete characters.
pub mod Sets
pub mod Processor
pub mod Command
mod Tests
