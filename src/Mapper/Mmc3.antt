-- ===== src/Mapper/Mmc3.antt =====
-- `nes_mapper_mmc3` (lib/src/nes_mapper_mmc3.cpp). A register whose handler is `assert(false)` is a
-- fault, `none`.
use neschan.Base.{
  ℕ, ◌+◌, bit_and, bit_or, bit_xor, ◌<<<◌, ◌==◌, ltb, leb, if◌then◌else◌, test_bits, Bool, not,
  Option, none, some,
}
use neschan.Rom.{Rom, slice, slice_end}
use neschan.Ppu.Vram.{
  write_bytes, set_mirroring, flags_vertical_mirroring, flags_horizontal_mirroring,
}
use neschan.Mapper.Info.{MapperInfo, flags_has_registers, Target, ◌>>=◌, load_prg}

pub record Mmc3 : Type 0 where
  pub prg_rom : Rom
  pub chr_rom : Rom
  pub vertical_mirroring : Bool
  pub bank_select : ℕ  -- uint8_t
  pub prev_prg_mode : ℕ  -- uint8_t

unfoldable pub new : Rom → Rom → Bool → Mmc3
new prg chr vertical = record {
  prg_rom = prg;
  chr_rom = chr;
  vertical_mirroring = vertical;
  bank_select = 0;
  prev_prg_mode = 1;
}

unfoldable pub on_load_ram : Mmc3 → Target → Option Target
unfolding load_prg slice_end
on_load_ram m t = load_prg 0xe000 (slice_end m.prg_rom 0x2000 0x2000) 0x2000 t

unfoldable pub get_info : Mmc3 → MapperInfo
get_info m = record {
  code_addr = 0x8000;
  reg_start = 0x8000;
  reg_end = 0xffff;
  flags =
      if m.vertical_mirroring
      then bit_or flags_has_registers flags_vertical_mirroring
      else flags_has_registers;
}

unfoldable pub write_bank_select : ℕ → Mmc3 → Mmc3
write_bank_select val m = record m { bank_select = val }

unfoldable pub write_mirroring : ℕ → Mmc3 → Target → Mmc3 × Target
write_mirroring val m t =
    let vertical = not (test_bits val 1) in
    (
      record m { vertical_mirroring = vertical },
      record t {
        ppu =
            set_mirroring
              (if vertical then flags_vertical_mirroring else flags_horizontal_mirroring) t.ppu;
      },
    )

-- The fixed bank, copied when the PRG mode has changed.
unfoldable pub load_fixed_bank : Mmc3 → Target → Option Target
unfolding load_prg slice_end
load_fixed_bank m t =
    if not (m.prev_prg_mode == bit_and m.bank_select 0x40)
    then if test_bits m.bank_select 0x40
      then load_prg 0x8000 (slice_end m.prg_rom 0x4000 0x2000) 0x2000 t
      else load_prg 0xc000 (slice_end m.prg_rom 0x4000 0x2000) 0x2000 t
    else some t

-- `val &= ~0xb0`.
unfoldable pub prg_bank_number : ℕ → ℕ
prg_bank_number val = bit_and val 0x4f

-- Banks 6 and 7: 8 KB of PRG ROM.
unfoldable pub prg_bank_addr : ℕ → ℕ
prg_bank_addr bank_select =
    if bit_and bank_select 0x7 == 6
    then if test_bits bank_select 0x40 then 0xc000 else 0x8000
    else 0xa000

unfoldable pub load_prg_bank : ℕ → Mmc3 → Target → Option Target
unfolding load_prg slice prg_bank_number prg_bank_addr
load_prg_bank val m t =
    let offset = prg_bank_number val <<< 13 in
    if ltb m.prg_rom.size (offset + 0x2000)
    then some t
    else load_prg (prg_bank_addr m.bank_select) (slice m.prg_rom offset 0x2000) 0x2000 t

-- Banks 0 to 5: the window of the PPU, its size, and the value with the bits that count.
pub record ChrWindow : Type 0 where
  pub ppu_addr : ℕ
  pub ppu_size : ℕ
  pub val : ℕ

unfoldable pub chr_window : ℕ → ℕ → ChrWindow
chr_window select val =
    if select == 0
    then record { ppu_addr = 0; ppu_size = 0x800; val = bit_and val 0xfe }
    else if select == 1
    then record { ppu_addr = 0x800; ppu_size = 0x800; val = bit_and val 0xfe }
    else if select == 2
    then record { ppu_addr = 0x1000; ppu_size = 0x400; val = val }
    else if select == 3
    then record { ppu_addr = 0x1400; ppu_size = 0x400; val = val }
    else if select == 4
    then record { ppu_addr = 0x1800; ppu_size = 0x400; val = val }
    else record { ppu_addr = 0x1c00; ppu_size = 0x400; val = val }

unfoldable pub load_chr_bank : ℕ → Mmc3 → Target → Target
unfolding chr_window
load_chr_bank val m t =
    let w = chr_window (bit_and m.bank_select 0x7) val in
    let offset = w.val <<< 10 in
    let addr = if test_bits m.bank_select 0x80 then bit_xor w.ppu_addr 0x1000 else w.ppu_addr in
    if ltb m.chr_rom.size (offset + w.ppu_size)
    then t
    else record t { ppu = write_bytes addr (λ i. m.chr_rom.byte (offset + i)) w.ppu_size t.ppu }

unfoldable pub write_bank_data : ℕ → Mmc3 → Target → Option (Mmc3 × Target)
unfolding load_fixed_bank load_prg_bank load_chr_bank
write_bank_data val m t = do
  t' ← load_fixed_bank m t
  t'' ←
      if leb 6 (bit_and m.bank_select 0x7)
      then load_prg_bank val m t'
      else some (load_chr_bank val m t')
  some (record m { prev_prg_mode = bit_and m.bank_select 0x40 }, t'')

unfoldable pub write_reg : ℕ → ℕ → Mmc3 → Target → Option (Mmc3 × Target)
unfolding write_bank_data write_bank_select write_mirroring
write_reg addr val m t =
    if leb addr 0x9fff
    then if test_bits addr 1 then write_bank_data val m t else some (write_bank_select val m, t)
    else if leb addr 0xbfff
    then if test_bits addr 1 then none else some (write_mirroring val m t)
    else if leb addr 0xdfff
    then none
    else if test_bits addr 1
    then none
    else some (m, t)
