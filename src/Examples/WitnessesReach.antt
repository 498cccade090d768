-- ===== src/Examples/WitnessesReach.antt =====
-- A machine that is powered on, given a cartridge and stepped, and what is shown of it.
use neschan.Base.{refl, arith, ◌==◌, ◌||◌, if◌then◌else◌, Option, none, some}
use neschan.Base.{memcpy_s}
use neschan.Rom.{Rom}
use neschan.Memory.Ram.{set_bytes, redirect_addr, is_io_reg}
use neschan.Mapper.Loader.{load_from, on_load_ram, on_load_ppu, get_info, mapper_id}
use neschan.Mapper.Nrom
use neschan.Cpu.State as CpuState
use neschan.Cpu.State.{step_cpu}
use neschan.Cpu.Operand.{decode_byte}
use neschan.Cpu.Table.{decode}
use neschan.Cpu.Exec
use neschan.Cpu.Exec.{Outcome, done, faulted, out_of_fuel, execute, exec_one_instruction}
use neschan.Cpu.Flow
use neschan.System.State.{System, ◌>>=◌}
use neschan.System.Bus.{get_byte}
use neschan.System.Run.{power_on, load_rom, direct, step}
use neschan.System.Fits.Machine.{IsRaw}
use neschan.System.Fits.History.{Reachable, powered, loaded, stepped, IsSound, Reachable-IsSound}
use neschan.Examples.Machine.{blank_system}

-- NROM with one bank of each ROM, all of whose bytes are 0.
abbrev cartridge : Rom
cartridge = record { size = 0x6010; byte = λ i. if (i == 4) || (i == 5) then 1 else 0 }

abbrev state_of : Option (Unit {0} × System) → System
state_of none = blank_system
state_of (some (_, s)) = s

abbrev end_of : Outcome → System
end_of (done s) = s
end_of faulted = blank_system
end_of out_of_fuel = blank_system

abbrev ready : System
ready = state_of (load_rom 0 0 cartridge direct (power_on blank_system))

pub raw : IsRaw blank_system
raw = record {
  dma_addr = omega arith;
  stop_at_addr = omega arith;
  vram = λ i. omega arith;
  oam = λ i. omega arith;
  pixel_cycle = λ i. omega arith;
  sprite_buf = λ i. omega arith;
  tile_index = omega arith;
  tile_palette_bit32 = omega arith;
  bitplane0 = omega arith;
  x_offset = omega arith;
  sprite_pos_y = omega arith;
  mirroring_flags = omega arith;
  mapper = refl;
  info = record {
    code_addr = omega arith;
    reg_start = omega arith;
    reg_end = omega arith;
    flags = omega arith;
  };
}

ready-Reachable : Reachable ready
unfolding load_rom load_from mapper_id on_load_ram Nrom.on_load_ram set_bytes redirect_addr ◌>>=◌
ready-Reachable =
    loaded {s = power_on blank_system} {t = ready} 0 0 cartridge direct (omega arith) (omega arith)
      (λ i. ground arith) refl (powered raw)

-- Its first instruction is a `BRK`.
abbrev stopped : System
stopped = end_of (step 12 ready)

stopped-Reachable : Reachable stopped
unfolding load_rom load_from mapper_id on_load_ram on_load_ppu Nrom.on_load_ram Nrom.on_load_ppu
    get_info Nrom.get_info set_bytes redirect_addr ◌>>=◌ power_on step Exec.step_to
    exec_one_instruction CpuState.power_on decode_byte get_byte decode execute Flow.brk step_cpu
    is_io_reg memcpy_s
stopped-Reachable = stepped {s = ready} {t = stopped} 12 refl ready-Reachable

Reachable-IsSound_example : IsSound stopped
Reachable-IsSound_example = Reachable-IsSound stopped-Reachable
