-- ===== src/Ppu.antt =====
-- The picture processing unit: lib/inc/nes_ppu.h and lib/src/nes_ppu.cpp.
pub mod State
pub mod Vram
pub mod Registers
pub mod Timing
pub mod Pattern
pub mod Tile
pub mod Sprites
pub mod Mirror
pub mod Drawing
pub mod Position
pub mod Ports
pub mod Steady
pub mod Fits
