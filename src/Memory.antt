-- ===== src/Memory.antt =====
-- The CPU's address space: lib/inc/nes_memory.h and lib/src/nes_memory.cpp. `Ram` has the plain array
-- behind it; reads and writes that reach the PPU, the controllers or a mapper are in System/Bus.antt.
pub mod Ram
pub mod Map
