-- ===== src/Update.antt =====
-- src/update: the check for a newer release.
pub mod Release
pub mod Notes
pub mod Response
pub mod Task
