-- ===== src/Mapper/Steady/Loading.antt =====
-- Loading a cartridge leaves the beam and the clock of the PPU alone.
use neschan.Base.{◌∙◌}
use neschan.Ppu.Steady.{IsSteady, IsSteady-refl}
use neschan.Mapper.Info.{Target}
use neschan.Mapper.Nrom
use neschan.Mapper.Mmc1
use neschan.Mapper.Mmc3
use neschan.Mapper.Loader.{Mapper, nrom, mmc1, mmc3, on_load_ram, on_load_ppu, get_info}
use neschan.Ppu.Vram.{set_mirroring}
use neschan.Mapper.Steady.{
  Steadies, of_target, steady_rules, write_bytes-IsSteady, set_mirroring-IsSteady,
}

pub on_load_ram-Steadies : (m : Mapper) (t : Target) → Steadies of_target t.ppu (on_load_ram m t)
unfolding on_load_ram Nrom.on_load_ram Mmc1.on_load_ram Mmc3.on_load_ram
on_load_ram-Steadies (nrom m) t = search steady_rules
on_load_ram-Steadies (mmc1 m) t = search steady_rules
on_load_ram-Steadies (mmc3 m) t = search steady_rules

on_load_ppu-IsSteady : (m : Mapper) (t : Target) → IsSteady t.ppu (on_load_ppu m t).ppu
unfolding on_load_ppu Nrom.on_load_ppu
on_load_ppu-IsSteady (nrom m) t = write_bytes-IsSteady 0 m.chr_rom.byte m.chr_rom.size t.ppu
on_load_ppu-IsSteady (mmc1 m) t = IsSteady-refl t.ppu
on_load_ppu-IsSteady (mmc3 m) t = IsSteady-refl t.ppu

-- `nes_ppu::load_mapper` sets the mirroring, too.
pub loaded_ppu :
    (m : Mapper) (t : Target)
    → IsSteady t.ppu (set_mirroring (get_info m).flags (on_load_ppu m t).ppu)
loaded_ppu m t =
    let h = on_load_ppu-IsSteady m t in
    let k = set_mirroring-IsSteady (get_info m).flags (on_load_ppu m t).ppu in
    record {
      clock = k.clock ∙ h.clock;
      cycle = k.cycle ∙ h.cycle;
      scanline = k.scanline ∙ h.scanline;
    }
