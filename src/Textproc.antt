-- ===== src/Textproc.antt =====
-- internal/textproc/textproc.go: the text processing that cat, tac, nl, head, tail and wc share.
pub mod Counts
pub mod Records
pub mod Numbering
mod Tests
