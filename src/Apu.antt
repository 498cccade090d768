-- ===== src/Apu.antt =====
-- The audio processing unit (lib/inc/nes_apu.h).
pub mod Audio
pub mod Pulse
pub mod Status
