-- ===== src/Uucode.antt =====
-- internal/applets/textutils/uucode/uucode.go: encode files as text, and back.
pub mod Encode
pub mod Decode
pub mod Command
mod Tests
