-- ===== src/Mapper/Nrom.antt =====
-- `nes_mapper_nrom` (lib/src/mappers/nes_mapper_nrom.cpp).
use neschan.Base.{bit_or, ◌==◌, if◌then◌else◌, Bool, Option, some}
use neschan.Rom.{Rom, slice}
use neschan.Ppu.Vram.{write_bytes, flags_vertical_mirroring, flags_horizontal_mirroring}
use neschan.Mapper.Info.{MapperInfo, Target, ◌>>=◌, load_prg}

pub record Nrom : Type 0 where
  pub prg_rom : Rom
  pub chr_rom : Rom
  pub vertical_mirroring : Bool

unfoldable pub on_load_ram : Nrom → Target → Option Target
unfolding load_prg slice
on_load_ram m t = do
  t' ← load_prg 0x8000 (slice m.prg_rom 0 m.prg_rom.size) m.prg_rom.size t
  if m.prg_rom.size == 0x4000
      then load_prg 0xc000 (slice m.prg_rom 0 m.prg_rom.size) m.prg_rom.size t'
      else some t'

unfoldable pub on_load_ppu : Nrom → Target → Target
on_load_ppu m t = record t { ppu = write_bytes 0x0000 m.chr_rom.byte m.chr_rom.size t.ppu }

unfoldable pub get_info : Nrom → MapperInfo
get_info m = record {
  code_addr = if m.prg_rom.size == 0x4000 then 0xc000 else 0x8000;
  reg_start = 0;
  reg_end = 0;
  flags =
      bit_or 0
        (if m.vertical_mirroring then flags_vertical_mirroring else flags_horizontal_mirroring);
}
