-- ===== src/Cpu/Stack/Cartridge.antt =====
-- The stack of a machine with a cartridge (`nes_memory::load_mapper` and `get_info` of the mappers).
use neschan.Base.{arith, Option, none, some}
use neschan.Mapper.Nrom
use neschan.Mapper.Mmc1
use neschan.Mapper.Mmc3
use neschan.Mapper.Info.{Target}
use neschan.Mapper.Loader.{Mapper, nrom, mmc1, mmc3, get_info, on_load_ram}
use neschan.System.State.{System}
use neschan.System.Bus.{is_mapper_reg}
use neschan.System.Run.{load_memory}
use neschan.System.Hoare.{Holds}
use neschan.Cpu.Stack.{LeavesRam}

-- No mapper has registers in the internal memory.
pub get_info-LeavesRam : (m : Mapper) → LeavesRam (get_info m)
unfolding is_mapper_reg get_info Nrom.get_info Mmc1.get_info Mmc3.get_info
get_info-LeavesRam (nrom m) a h = ground arith
get_info-LeavesRam (mmc1 m) a h = ground arith
get_info-LeavesRam (mmc3 m) a h = ground arith

-- Loading a cartridge of any kind into memory, when it succeeds, leaves a machine whose mapper has
-- no register in the 8 KB of internal memory.
pub load_memory-LeavesRam :
    (m : Mapper) (s : System) → Holds (load_memory m s) (λ _ t. LeavesRam t.mem.mapper_info)
unfolding load_memory
load_memory-LeavesRam m s = go (on_load_ram m (record { ram = s.mem.ram; ppu = s.ppu }))
  where
    go :
        (r : Option Target)
        → Holds
            (elim r [
              | none ↦ none
              | some t ↦ some (
                tt {0},
                record s {
                  mem = record { ram = t.ram; mapper = some m; mapper_info = get_info m };
                  ppu = t.ppu;
                },
              )
            ])
            (λ _ t. LeavesRam t.mem.mapper_info)
    go none = tt
    go (some t) = get_info-LeavesRam m
