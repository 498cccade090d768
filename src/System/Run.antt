-- ===== src/System/Run.antt =====
-- `nes_system` (lib/src/nes_system.cpp): power on, loading a ROM, one step of the machine, and the
-- loop of the tests. The paths of ROM files are their bytes here.
use neschan.Base.{ℕ, zero, suc, ◌+◌, ◌-◌, if◌then◌else◌, true, false, none, some, Bytes}
use neschan.Cpu.State as CpuState
use neschan.Cpu.Exec
use neschan.Cpu.Exec.{Outcome, done, faulted, out_of_fuel}
use neschan.Cpu.Flow.{set_pc}
use neschan.Ppu.State as PpuState
use neschan.Ppu.Vram.{set_mirroring}
use neschan.Input
use neschan.Rom.{Rom}
use neschan.Memory.Ram.{set_bytes}
use neschan.Mapper.Loader.{Mapper}
use neschan.Mapper.Loader
use neschan.System.State.{System, M, pure, ◌>>=◌, ◌>>◌, on_cpu}
use neschan.System.Bus.{get_word}
use neschan.System.Beam

unfoldable pub init : System → System
init s = record s { stop_requested = false; master_cycle = 0 }

-- The components in the order of the constructor: memory, CPU, PPU, controllers.
unfoldable pub power_on : System → System
unfolding init
power_on s = record (init s) {
  mem = record (s.mem) { ram = λ _. 0 };
  cpu = CpuState.power_on s.cpu;
  ppu = PpuState.init s.ppu;
  input = Input.init s.input;
}

-- The CPU and the memory do nothing on reset.
unfoldable pub reset : System → System
unfolding init
reset s = record (init s) { ppu = PpuState.init s.ppu; input = Input.init s.input }

-- `nes_memory::load_mapper`.
unfoldable pub load_memory : Mapper → M (Unit {0})
load_memory m s = elim (Loader.on_load_ram m (record { ram = s.mem.ram; ppu = s.ppu })) [
  | none ↦ none
  | some t ↦ some (
    tt,
    record s {
      mem = record { ram = t.ram; mapper = some m; mapper_info = Loader.get_info m };
      ppu = t.ppu;
    },
  )
]

-- `nes_ppu::load_mapper`.
unfoldable pub load_ppu : Mapper → M (Unit {0})
load_ppu m s =
    let t = Loader.on_load_ppu m (record { ram = s.mem.ram; ppu = s.ppu }) in
    some (tt, record s { ppu = set_mirroring (Loader.get_info m).flags t.ppu })

pub data ExecMode : Type 0 where
  direct reset_mode : ExecMode

-- Where the program starts.
unfoldable pub start_pc : ExecMode → Mapper → M ℕ
start_pc direct m = pure (Loader.get_info m).code_addr
start_pc reset_mode m = get_word CpuState.reset_handler

unfoldable pub insert_cartridge : ExecMode → Mapper → M (Unit {0})
unfolding load_memory load_ppu start_pc set_pc
insert_cartridge mode m = do load_memory m; load_ppu m; pc ← start_pc mode m; on_cpu (set_pc pc)

unfoldable pub load_rom : ℕ → ℕ → Rom → ExecMode → M (Unit {0})
unfolding insert_cartridge
load_rom reg control file mode s = elim (Loader.load_from reg control file) [
  | none ↦ none
  | some m ↦ insert_cartridge mode m s
]

-- `nes_system::step`. The fuel of both loops is the number of cycles that they are to catch up.
unfoldable pub finish_step : Outcome → Outcome
finish_step (done s) = done (Beam.step_to (s.master_cycle - s.ppu.master_cycle) s.master_cycle s)
finish_step faulted = faulted
finish_step out_of_fuel = out_of_fuel

unfoldable pub step : ℕ → System → Outcome
unfolding finish_step
step count s =
    let t = record s { master_cycle = s.master_cycle + count } in
    finish_step (Exec.step_to (t.master_cycle - t.cpu.cycle) t.master_cycle t)

-- `test_loop`, which runs until something stops the system, on fuel.
unfoldable pub test_loop : ℕ → System → Outcome
test_loop zero s = if s.stop_requested then done s else out_of_fuel
test_loop (suc fuel) s = elim s.stop_requested [
  | true ↦ done s
  | false ↦ elim (step 1 s) [
    | done s' ↦ test_loop fuel s'
    | faulted ↦ faulted
    | out_of_fuel ↦ out_of_fuel
  ]
]

unfoldable pub run_program : ℕ → Bytes → ℕ → ℕ → System → Outcome
unfolding test_loop set_pc
run_program fuel program size addr s = elim (set_bytes addr program size s.mem.ram) [
  | none ↦ faulted
  | some ram ↦
      test_loop fuel (record s { mem = record (s.mem) { ram = ram }; cpu = set_pc addr s.cpu })
]
