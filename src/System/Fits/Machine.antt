-- ===== src/System/Fits/Machine.antt =====
-- Power on, reset, and loading a cartridge.
use neschan.Base.{ℕ, ◌<◌, ◌≡◌, arith, Option, none, some, IsBytes}
use neschan.Cpu.State as CpuState
use neschan.Cpu.State.{Cpu}
use neschan.Ppu.State as PpuState
use neschan.Ppu.State.{Ppu, SpriteInfo}
use neschan.Ppu.Fits.{PpuFits, SpriteFits}
use neschan.Ppu.Fits.Memory.{set_mirroring-PpuFits}
use neschan.Rom.{Rom}
use neschan.Mapper.Info.{Target}
use neschan.Mapper.Nrom
use neschan.Mapper.Mmc1
use neschan.Mapper.Mmc3
use neschan.Mapper.Loader.{Mapper, nrom, mmc1, mmc3}
use neschan.Mapper.Loader
use neschan.Mapper.Fits.{MapperFits, InfoFits, TargetFits, Gives, nothing, just}
use neschan.Mapper.Fits.Cartridge.{
  load_from-Gives, get_info-InfoFits, on_load_ram-Gives, on_load_ppu-TargetFits,
}
use neschan.System.State.{System}
use neschan.System.Hoare.{Holds}
use neschan.System.Run.{
  power_on, reset, load_memory, load_ppu, ExecMode, direct, reset_mode, start_pc, insert_cartridge,
  load_rom,
}
use neschan.System.Fits.{Fits, Fitting, Quietly, Word, Fitting-then, Fitting-pure, with_ppu}
use neschan.System.Fits.Ports.{get_word-Fitting}
use neschan.System.Fits.Flow.{jump}

-- What the fields that no constructor sets hold anyway, by their C types.
pub record IsRaw (s : System) : Type 0 where
  pub dma_addr : s.cpu.dma_addr < 0x10000
  pub stop_at_addr : s.cpu.stop_at_addr < 0x10000
  pub vram : IsBytes s.ppu.vram
  pub oam : IsBytes s.ppu.oam
  pub pixel_cycle : IsBytes s.ppu.pixel_cycle
  pub sprite_buf : (i : ℕ) → SpriteFits (s.ppu.sprite_buf i)
  pub tile_index : s.ppu.tile_index < 256
  pub tile_palette_bit32 : s.ppu.tile_palette_bit32 < 256
  pub bitplane0 : s.ppu.bitplane0 < 256
  pub x_offset : s.ppu.x_offset < 256
  pub sprite_pos_y : s.ppu.sprite_pos_y < 256
  pub mirroring_flags : s.ppu.mirroring_flags < 4
  pub mapper : s.mem.mapper ≡ none
  pub info : InfoFits s.mem.mapper_info

init-PpuFits :
    (p : Ppu)
    → IsBytes p.vram
    → IsBytes p.oam
    → IsBytes p.pixel_cycle
    → ((i : ℕ) → SpriteFits (p.sprite_buf i))
    → (p.tile_index < 256)
      × (p.tile_palette_bit32 < 256)
      × (p.bitplane0 < 256)
      × (p.x_offset < 256)
      × (p.sprite_pos_y < 256)
      × (p.mirroring_flags < 4)
    → PpuFits (PpuState.init p)
unfolding PpuState.init
init-PpuFits p v o x b k = record {
  ports = omega (arith, k);
  pipes = omega (arith, k);
  bytes = record {
    vram_bytes = v;
    oam_bytes = o;
    pixel_bytes = x;
    frame_1_bytes = λ i. omega arith;
    frame_2_bytes = λ i. omega arith;
    bg_bits = λ i. omega arith;
    sprites = b;
  };
}

pub power_on-Fits : (s : System) → IsRaw s → Fits (power_on s)
unfolding power_on CpuState.power_on
power_on-Fits s r = record {
  cpu = omega (arith, r.dma_addr, r.stop_at_addr);
  ram = λ i. omega arith;
  mapper = rw r.mapper tt;
  info = r.info;
  ppu = init-PpuFits s.ppu r.vram r.oam r.pixel_cycle r.sprite_buf (
    r.tile_index, r.tile_palette_bit32, r.bitplane0, r.x_offset, r.sprite_pos_y, r.mirroring_flags,
  );
}

pub reset-Fits : (s : System) → Fits s → Fits (reset s)
unfolding reset
reset-Fits s i = record {
  cpu = i.cpu;
  ram = i.ram;
  mapper = i.mapper;
  info = i.info;
  ppu =
      let b = i.ppu.bytes in
      let k = i.ppu.pipes in
      init-PpuFits s.ppu b.vram_bytes b.oam_bytes b.pixel_bytes b.sprites (
        k.tile_index, k.tile_palette_bit32, k.bitplane0, k.x_offset, k.sprite_pos_y,
        i.ppu.ports.mirroring_flags,
      );
}

-- Loading a cartridge.
load_memory-Fitting : (m : Mapper) → MapperFits m → Quietly (load_memory m)
unfolding load_memory
load_memory-Fitting m g = record {
  at = λ s i. go s i _ (
      on_load_ram-Gives m (record { ram = s.mem.ram; ppu = s.ppu }) g
        (record { ram = i.ram; ppu = i.ppu }));
}
  where
    go :
        (s : System)
        → Fits s
        → (r : Option Target) → Gives TargetFits r
        → Holds
            (elim r [
              | none ↦ none
              | some t ↦ some (
                tt {0},
                record s {
                  mem = record { ram = t.ram; mapper = some m; mapper_info = Loader.get_info m };
                  ppu = t.ppu;
                },
              )
            ])
            (λ _ t. Unit {0} × Fits t)
    go s i _ nothing = tt
    go s i _ (just h) = (
      tt,
      record { cpu = i.cpu; ram = h.ram; mapper = g; info = get_info-InfoFits m; ppu = h.ppu },
    )

load_ppu-Fitting : (m : Mapper) → MapperFits m → Quietly (load_ppu m)
unfolding load_ppu
load_ppu-Fitting m g = record {
  at = λ s i. (
    tt,
    with_ppu s _
        (set_mirroring-PpuFits _ _
          (on_load_ppu-TargetFits m _ g (record { ram = i.ram; ppu = i.ppu })).ppu)
        i,
  );
}

info_addr : (m : Mapper) → (Loader.get_info m).code_addr < 0x10000
unfolding Loader.get_info Nrom.get_info Mmc1.get_info Mmc3.get_info
info_addr (nrom m) = ground arith
info_addr (mmc1 m) = ground arith
info_addr (mmc3 m) = omega arith

start_pc-Fitting : (mode : ExecMode) (m : Mapper) → Fitting Word (start_pc mode m)
unfolding start_pc
start_pc-Fitting direct m = Fitting-pure _ (info_addr m)
start_pc-Fitting reset_mode m = get_word-Fitting CpuState.reset_handler

insert_cartridge-Fitting :
    (mode : ExecMode) (m : Mapper) → MapperFits m → Quietly (insert_cartridge mode m)
unfolding insert_cartridge
insert_cartridge-Fitting mode m g = Fitting-then _ _ (load_memory-Fitting m g) λ _ _.
    Fitting-then _ _ (load_ppu-Fitting m g)
      λ _ _. Fitting-then _ _ (start_pc-Fitting mode m) λ pc lt. jump pc lt

pub load_rom-Fitting :
    (reg control : ℕ) (file : Rom) (mode : ExecMode)
    → reg < 256
    → control < 256
    → IsBytes file.byte
    → Quietly (load_rom reg control file mode)
unfolding load_rom
load_rom-Fitting reg control file mode hr hc h = record {
  at = λ s i. go s i _ (load_from-Gives reg control file hr hc h);
}
  where
    go :
        (s : System)
        → Fits s
        → (r : Option Mapper) → Gives MapperFits r
        → Holds
            (elim r [ none ↦ none | some m ↦ insert_cartridge mode m s ])
            (λ _ t. Unit {0} × Fits t)
    go s i _ nothing = tt
    go s i _ (just {a = m} g) = (insert_cartridge-Fitting mode m g).at s i
