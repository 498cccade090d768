-- ===== src/System.antt =====
-- The whole machine: lib/inc/nes_system.h and lib/src/nes_system.cpp, and the bus.
pub mod State
pub mod Bus
pub mod Beam
pub mod Run
pub mod Steps
pub mod Hoare
pub mod Transfer
pub mod Clocks
pub mod Fits
