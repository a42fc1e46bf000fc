-- ===== src/Recording.antt =====
-- src/recording: the recorder's phases, its failures and its timeline.
pub mod Status
pub mod Pause
pub mod Options
pub mod Session
pub mod Buffers
pub mod Mux
pub mod Delivery
pub mod Limiter
