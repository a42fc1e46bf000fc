-- ===== src/Audio.antt =====
-- src/audio: the PCM mailbox between capture and playback, and the small policies of the audio
-- threads.
pub mod Ring
pub mod LogQueue
pub mod Recovery
pub mod Formats
