-- ===== src/Examples/Programs.antt =====
-- The inline programs of test/cpu_test.cpp.
use neschan.Base.{ℕ, ◌≡◌, refl, List, [], ◌∷◌}
use neschan.Examples.Machine.{bytes, blank_system}
use neschan.Cpu.Exec.{Outcome, done}
use neschan.System.Run.{power_on, run_program, step}
use neschan.Base.{memcpy_s}
use neschan.Memory.Ram.{set_bytes, redirect_addr, is_io_reg}
use neschan.System.State.{◌>>=◌}
use neschan.System.Bus.{get_byte, set_byte, write_mem}
use neschan.System.Beam
use neschan.Ppu.Timing.{move_beam}
use neschan.Ppu.State as PpuState
use neschan.Ppu.Sprites.{fetch_sprite_pipeline}
use neschan.Ppu.Tile.{fetch_tile_pipeline}
use neschan.Cpu.State as CpuState
use neschan.Cpu.State.{calc_alu_flag, step_cpu}
use neschan.Cpu.Alu.{set_a, set_y, adc_val}
use neschan.Cpu.Operand.{
  decode_byte, decode_operand_addr, decode_operand, read_operand, step_operand, peek, poke,
  get_inc_cycle,
}
use neschan.Cpu.Table.{decode}
use neschan.Cpu.Exec
use neschan.Cpu.Exec.{execute, exec_one_instruction}
use neschan.Cpu.Instr
use neschan.Cpu.Flow

abbrev simple : List ℕ
simple =
    0xa9 ∷ 0x10 ∷ 0x85 ∷ 0x20 ∷ 0xa9 ∷ 0x01 ∷ 0x65 ∷ 0x20 ∷ 0x85 ∷ 0x21 ∷ 0xe6 ∷ 0x21 ∷ 0xa4 ∷ 0x21
    ∷ 0xc8 ∷ 0x00 ∷ []

-- The checks of the sub-case "simple": `$20`, `$21`, `A`, `Y`.
abbrev checks : Outcome → List ℕ
checks (done s) = s.mem.ram 0x20 ∷ s.mem.ram 0x21 ∷ s.cpu.a ∷ s.cpu.y ∷ []
checks _ = []

abbrev run_simple : Outcome
run_simple = run_program 100 (bytes simple) 16 0x1000 (power_on blank_system)

abbrev simple_checks : List ℕ
simple_checks = checks run_simple

-- The program runs to its `BRK`, and the checks hold.
simple_run : simple_checks ≡ 16 ∷ 18 ∷ 17 ∷ 19 ∷ []
unfolding run_program power_on set_bytes memcpy_s redirect_addr is_io_reg step Exec.step_to
    exec_one_instruction CpuState.power_on ◌>>=◌ decode_byte decode_operand_addr decode_operand
    read_operand step_operand peek poke get_byte set_byte write_mem decode execute Instr.lda
    Instr.adc Instr.inc Instr.ldy Instr.iny Flow.sta Flow.brk set_a set_y adc_val calc_alu_flag
    step_cpu get_inc_cycle Beam.step_to Beam.ppu_cycle move_beam PpuState.init fetch_sprite_pipeline
    fetch_tile_pipeline
simple_run = refl
