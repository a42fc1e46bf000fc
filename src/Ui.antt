-- ===== src/Ui.antt =====
-- src/ui: the parts of the user interface that compute without drawing.
pub mod WindowGeometry
