-- ===== src/Input.antt =====
-- src/input: the keyboard shortcuts of the viewer.
pub mod Shortcuts
