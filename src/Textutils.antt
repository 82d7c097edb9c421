-- ===== src/Textutils.antt =====
-- Applets that work on the lines of a text: internal/applets/textutils/fold,
-- internal/applets/shellutils/uniq and internal/applets/textutils/comm.
pub mod Fold
pub mod Uniq
pub mod Comm
mod Tests
