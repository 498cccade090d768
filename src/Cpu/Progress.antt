-- ===== src/Cpu/Progress.antt =====
-- Every instruction that returns moves the clock or stops the system, so `step_to` ends.
pub mod Takes
pub mod Operands
pub mod Instr
pub mod Execute
pub mod Loop
