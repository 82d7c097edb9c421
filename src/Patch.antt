-- ===== src/Patch.antt =====
-- internal/applets/editors/patch: apply a unified diff.
pub mod Hunks
pub mod Apply
pub mod Parse
pub mod Command
mod Tests
