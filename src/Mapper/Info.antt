-- ===== src/Mapper/Info.antt =====
-- `nes_mapper_info`, and what a mapper writes to: the memories of the CPU and of the PPU.
use neschan.Base.{ℕ, Option, some, Bytes}
pub use neschan.Base.Chain.{◌>>=◌}
use neschan.Ppu.State.{Ppu}
use neschan.Memory.Ram.{set_bytes}

pub record MapperInfo : Type 0 where
  pub code_addr : ℕ  -- uint16_t
  pub reg_start : ℕ  -- uint16_t
  pub reg_end : ℕ  -- uint16_t
  pub flags : ℕ  -- nes_mapper_flags

abbrev pub flags_has_registers : ℕ
flags_has_registers = 0x4

-- `_mem` and `_ppu` of a mapper.
pub record Target : Type 0 where
  pub ram : Bytes
  pub ppu : Ppu

-- `mem.set_bytes` with a source that may be out of range.
unfoldable pub load_prg : ℕ → Option Bytes → ℕ → Target → Option Target
load_prg addr src size t = do
  bytes ← src
  ram ← set_bytes addr bytes size t.ram
  some (record t { ram = ram })
