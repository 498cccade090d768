-- ===== src/Lib.antt =====
-- A model of the emulator (lib/inc, lib/src and src/neschan.cpp) and what is shown of it.
--
-- The program. `nes_system` owns a CPU, a memory, a PPU and the controllers, and keeps the clock. The
-- CPU reads and writes through the memory, which passes some addresses on to the registers of the PPU,
-- to the controllers or to the cartridge's mapper; a mapper copies banks of its ROM into the memory of
-- the CPU and of the PPU. The PPU asks the CPU for an interrupt at the vertical blank, and for an OAM
-- transfer. `nes_system::step` moves the clock on, and first the CPU and then the PPU catch up.
--
-- The files.
--   Base    numbers of fixed width (`% 2 ^ w`), Boolean tests, byte arrays, `memcpy_s` (lib/inc/common.h);
--           Widths has how wide a masked or combined number is
--   Cpu     lib/inc/nes_cpu.h and lib/src/nes_cpu.cpp: State (registers and flags), Alu (arithmetic
--           on registers), Operand (addressing modes, stack, cycles), Instr, Flow and Unofficial (one
--           function for each member function that is an instruction), Table (the `switch`), Exec
--           (`exec_one_instruction`, `NMI`, `OAMDMA`, `step_to`), Trace (the text of a trace); the
--           proofs are in Alu/, Stack/, Progress/ (each instruction takes time), Keeps/ (what no
--           instruction breaks), Fits (widths), Addressing, Branches, Trace/ and Coverage
--   Ppu     lib/inc/nes_ppu.h and lib/src/nes_ppu.cpp: State, Vram (address space), Registers (ports),
--           Timing (`step_ppu`), Pattern, Tile and Sprites (the pipelines); proofs in Mirror, Position,
--           Drawing/ (what a line and a tile draw), Fits/ (widths), Steady, Ports
--   Memory  lib/inc/nes_memory.h: the array and its mirrors; proofs in Map
--   Input   lib/inc/nes_input.h; proofs in Serial
--   Rom, Mapper  lib/inc/nes_mapper.h, lib/src/mappers, lib/src/nes_mapper_mmc3.cpp: the three mappers
--           and `load_from`; proofs in Serial, Steady, Files, Fits/
--           (widths) and Windows/ (which banks are shown)
--   Apu     lib/inc/nes_apu.h and lib/src/nes_apu.cpp: Audio (the circular buffer, with the queue it
--           stands for in Audio/), Pulse (the pulse channel), Status (the registers)
--   System  lib/src/nes_system.cpp and what crosses components: State (the record of the machine and
--           the monad of member functions), Bus (lib/src/nes_memory.cpp, `oam_dma`), Beam
--           (`nes_ppu::step_to`), Run (loading, `step`, `test_loop`); Hoare and Steps are rules for `do`
--           blocks; proofs in Transfer (`oam_dma`), Beam/, Clocks/ (the loops catch up) and
--           Fits/ (the widths of all values, and in History the machines that can be reached)
--   App     src/neschan.cpp: Keys (the input devices), Video (colours and the copy of the frame), Frame
--           (the main loop); the proofs are in their folders
--   Examples  a machine, a program of test/cpu_test.cpp, and the theorems at concrete inputs
--
-- How the code is modelled. Integers are natural numbers with their wrap-around written out; a pointer
-- from one component to another is a field of the one record `System`. A member function is a function
-- `System → Option (A × System)`: `none` is a failed assertion, an exception of a file that is too
-- short, or behaviour that C++ leaves undefined, such as a read out of a vector. The operands of
-- `peek(..) + (peek(..) << 8)` are read from left to right. Member functions with the same body but for
-- one operation share it as a parameter, as in `read_instr`. Numbers of cycles are not bounded, as the
-- source counts them in 64 bits.
--
-- Fuel. `Exec.step_to` takes fuel and tells a loop that is done from a fault and from one that ran out;
-- `nes_system::step` gives it the cycles to catch up, and each instruction takes six at least or stops
-- the system. `Beam.step_to` takes the cycles to catch up too, one to a round. `test_loop` runs until
-- the program stops the system, which it need not, so its fuel is the caller's.
--
-- Not modelled: where traces go (lib/inc/nes_trace.h), while their text is; what src/neschan.cpp shows on
-- the screen through SDL, and its game controllers, whose answers are arguments here; the arithmetic of
-- doubles that turns ticks into cycles; vendored code under dep and test/doctest.h. A new MMC1 has
-- arbitrary contents in the two fields that its constructor does not set, and the circular buffer of the
-- APU, whose class has no constructor, is taken from any valid state on.
pub mod Base
pub mod Ppu
pub mod Input
pub mod Rom
pub mod Memory
pub mod Mapper
pub mod Apu
pub mod Cpu
pub mod System
pub mod App
pub mod Examples
