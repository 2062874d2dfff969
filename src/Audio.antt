-- ===== src/Audio.antt =====
-- Audio on the Raspberry Pi: src/pi/audio.
pub mod Buffer
pub mod Capture
pub mod Devices
pub mod Backend
