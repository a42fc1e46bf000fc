-- ===== src/Video.antt =====
-- src/video: the policies of the video output.
pub mod Transition
