-- ===== src/Mapper/Mmc1.antt =====
-- `nes_mapper_mmc1` (lib/src/mappers/nes_mapper_mmc1.cpp). The constructor leaves `_reg` and
-- `_control` as they are in the memory it is given; here they are arguments of `new`.
use neschan.Base.{
  ℕ, ◌+◌, ◌*◌, bit_and, bit_or, ◌<<<◌, ◌>>>◌, ◌==◌, ltb, leb, if◌then◌else◌, u8, test_bits, Bool,
  Option, some,
}
use neschan.Rom.{Rom, slice, slice_end}
use neschan.Ppu.Vram.{write_bytes, set_mirroring, flags_mirroring_mask, flags_vertical_mirroring}
use neschan.Mapper.Info.{MapperInfo, flags_has_registers, Target, ◌>>=◌, load_prg}

pub record Mmc1 : Type 0 where
  pub prg_rom : Rom
  pub chr_rom : Rom
  pub vertical_mirroring : Bool
  pub bit_latch : ℕ  -- uint8_t
  pub reg : ℕ  -- uint8_t
  pub control : ℕ  -- uint8_t

unfoldable pub new : Rom → Rom → Bool → ℕ → ℕ → Mmc1
new prg chr vertical reg control = record {
  prg_rom = prg;
  chr_rom = chr;
  vertical_mirroring = vertical;
  bit_latch = 0;
  reg = reg;
  control = control;
}

unfoldable pub on_load_ram : Mmc1 → Target → Option Target
unfolding load_prg slice_end
on_load_ram m t = load_prg 0x8000 (slice_end m.prg_rom 0x8000 0x8000) 0x8000 t

unfoldable pub get_info : Mmc1 → MapperInfo
get_info m = record {
  code_addr = if m.prg_rom.size == 0x4000 then 0xc000 else 0x8000;
  reg_start = 0x8000;
  reg_end = 0xffff;
  flags =
      if m.vertical_mirroring
      then bit_or flags_has_registers flags_vertical_mirroring
      else flags_has_registers;
}

unfoldable pub write_control : ℕ → Mmc1 → Target → Option (Mmc1 × Target)
write_control val m t = some (
  record m { control = val },
  record t { ppu = set_mirroring (bit_and val flags_mirroring_mask) t.ppu },
)

-- `_chr_rom->size() < addr + size` stops the copy.
unfoldable pub load_chr : ℕ → Rom → ℕ → ℕ → Target → Target
load_chr ppu_addr chr off size t =
    if ltb chr.size (off + size)
    then t
    else record t { ppu = write_bytes ppu_addr (λ i. chr.byte (off + i)) size t.ppu }

unfoldable pub write_chr_bank_0 : ℕ → Mmc1 → Target → Option (Mmc1 × Target)
unfolding load_chr
write_chr_bank_0 val m t = some (
  m,
  if test_bits m.control 0x10
      then load_chr 0x0000 m.chr_rom (bit_and val 0x1f <<< 12) 0x1000 t
      else load_chr 0x0000 m.chr_rom (bit_and val 0x1e <<< 12) 0x2000 t,
)

unfoldable pub write_chr_bank_1 : ℕ → Mmc1 → Target → Option (Mmc1 × Target)
unfolding load_chr
write_chr_bank_1 val m t = some (
  m,
  if test_bits m.control 0x10
      then load_chr 0x1000 m.chr_rom (bit_and val 0x1f <<< 12) 0x1000 t
      else t,
)

-- The copies of `write_prg_bank`, without the mapper.
unfoldable pub load_prg_bank : ℕ → Mmc1 → Target → Option Target
unfolding load_prg slice slice_end
load_prg_bank val m t =
    if test_bits m.control 0x8
    then if test_bits m.control 0x4
      then load_prg 0x8000 (slice m.prg_rom (bit_and val 0xf * 0x4000) 0x4000) 0x4000 t
        >>= load_prg 0xc000 (slice_end m.prg_rom 0x4000 0x4000) 0x4000
      else load_prg 0x8000 (slice m.prg_rom 0 0x4000) 0x4000 t
        >>= load_prg 0xc000 (slice m.prg_rom (bit_and val 0xf * 0x4000) 0x4000) 0x4000
    else load_prg 0x8000 (slice m.prg_rom (bit_and val 0xe * 0x4000) 0x8000) 0x8000 t

unfoldable pub write_prg_bank : ℕ → Mmc1 → Target → Option (Mmc1 × Target)
write_prg_bank val m t = do t' ← load_prg_bank val m t; some (m, t')

-- The register that an address selects.
unfoldable pub write_selected : ℕ → ℕ → Mmc1 → Target → Option (Mmc1 × Target)
unfolding write_control write_chr_bank_0 write_chr_bank_1 write_prg_bank
write_selected addr val m t =
    if leb addr 0x9fff
    then write_control val m t
    else if leb addr 0xbfff
    then write_chr_bank_0 val m t
    else if leb addr 0xdfff
    then write_chr_bank_1 val m t
    else write_prg_bank val m t

-- `_reg >>= 1; _reg |= (val & 1) << 4`.
unfoldable pub shift_in : ℕ → ℕ → ℕ
shift_in reg val = bit_or (reg >>> 1) (bit_and val 1 <<< 4)

unfoldable pub write_reg : ℕ → ℕ → Mmc1 → Target → Option (Mmc1 × Target)
unfolding shift_in
write_reg addr val m t =
    let reg = shift_in m.reg val in
    let count = u8 (m.bit_latch + 1) in
    if test_bits val 0x80
    then some (record m { bit_latch = 0; reg = 0x10 }, t)
    else if count == 5
    then write_selected addr reg (record m { bit_latch = 0; reg = reg }) t
    else some (record m { bit_latch = count; reg = reg }, t)
