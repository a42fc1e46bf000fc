-- ===== src/Capture.antt =====
-- src/capture: what receives the frames of the capture device.
pub mod LatestSample
