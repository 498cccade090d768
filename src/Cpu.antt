-- ===== src/Cpu.antt =====
-- The 6502: lib/inc/nes_cpu.h and lib/src/nes_cpu.cpp.
pub mod State
pub mod Alu
pub mod Operand
pub mod Instr
pub mod Flow
pub mod Fits
pub mod Unofficial
pub mod Table
pub mod Exec
pub mod Stack
pub mod Coverage
pub mod Progress
pub mod Keeps
pub mod Branches
pub mod Addressing
pub mod Trace
