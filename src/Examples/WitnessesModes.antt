-- ===== src/Examples/WitnessesModes.antt =====
-- Branches, addressing modes, banks and tiles of concrete machines, and what is shown of them.
use neschan.Base.{◌-◌, ◌/◌, ◌≡◌, refl, arith, ◌==◌, if◌then◌else◌, true, false, some, update}
use neschan.Memory.Ram.{redirect_addr, is_io_reg}
use neschan.Mapper.Info.{Target}
use neschan.Mapper.Mmc1.{Mmc1, load_prg_bank}
use neschan.Mapper.Windows.Banks.{IsBanked, low_bank, high_bank, load_prg_bank-IsBanked}
use neschan.Ppu.State.{Ppu}
use neschan.Ppu.Pattern.{read_pattern_table_column}
use neschan.Ppu.Vram.{read_byte}
use neschan.Ppu.Vram
use neschan.Cpu.State as CpuState
use neschan.Ppu.Tile.{draw_tile, render_cycle, render_scanline}
use neschan.Ppu.Drawing.Tile.{
  IsDrawn, first_pixel, columns, first_column, drawn_tile, upper_plane, plane_bits,
  draw_tile-IsDrawn,
}
use neschan.Cpu.Operand.{ind_jmp, decode_operand_addr}
use neschan.Cpu.Flow.{branch}
use neschan.Cpu.Branches.{branched, branch_eq}
use neschan.Cpu.Addressing.{effective, result, decode_operand_addr_eq}
use neschan.System.State.{System}
use neschan.System.Fits.{Fits}
use neschan.System.Fits.Machine.{power_on-Fits}
use neschan.System.Run.{power_on}
use neschan.Examples.Machine.{zeros, blank_system, blank_ppu}
use neschan.Examples.WitnessesReach.{raw}

-- A branch at the end of a page, into the next one.
abbrev branching : System
branching = record blank_system {
  cpu = record (blank_system.cpu) { pc = 0xf0 };
  mem = record (blank_system.mem) { ram = update zeros 0xf0 0x7f };
}

branch_eq_example : branch (λ _. true) branching ≡ some (tt, branched true branching)
unfolding redirect_addr is_io_reg
branch_eq_example = branch_eq (λ _. true) branching (omega arith) refl (omega arith)

-- `JMP ($02ff)`, whose pointer is at the end of its page.
abbrev jumping : System
jumping = record (power_on blank_system) {
  cpu = record ((power_on blank_system).cpu) { pc = 0x300 };
  mem = record ((power_on blank_system).mem) {
    ram = λ i.
        if i == 0x300 then 0xff else if i == 0x301 then 2 else if i == 0x200 then 0x12 else 0x34;
  };
}

jumping-Fits : Fits jumping
unfolding power_on CpuState.power_on
jumping-Fits = record {
  cpu = record {
    a = omega arith;
    x = omega arith;
    y = omega arith;
    s = omega arith;
    p = omega arith;
    pc = omega arith;
    dma_addr = omega arith;
    stop_at_addr = omega arith;
  };
  ram = λ i. ground arith;
  mapper = (power_on-Fits blank_system raw).mapper;
  info = (power_on-Fits blank_system raw).info;
  ppu = (power_on-Fits blank_system raw).ppu;
}

decode_operand_addr_eq_example :
    decode_operand_addr ind_jmp jumping ≡ result ind_jmp jumping (effective ind_jmp jumping)
unfolding redirect_addr is_io_reg
decode_operand_addr_eq_example =
    decode_operand_addr_eq ind_jmp jumping jumping-Fits refl refl (refl, refl, refl)

-- An MMC1 with four banks of 16 KB, the last of which is fixed at 0xc000.
abbrev four_banks : Mmc1
four_banks = record {
  prg_rom = record { size = 0x10000; byte = λ i. i / 0x4000 };
  chr_rom = record { size = 0x2000; byte = zeros };
  vertical_mirroring = false;
  bit_latch = 0;
  reg = 0;
  control = 0xc;
}

abbrev unloaded : Target
unloaded = record { ram = zeros; ppu = blank_ppu }

load_prg_bank-IsBanked_example :
    (t : Target) × (load_prg_bank 2 four_banks unloaded ≡ some t)
    × IsBanked four_banks.prg_rom (low_bank four_banks 2) (high_bank four_banks 3 2) unloaded t
load_prg_bank-IsBanked_example =
    load_prg_bank-IsBanked 2 3 four_banks unloaded (omega arith) refl (omega arith) (omega arith)

-- The third tile of line 10, with some bits in both planes.
abbrev drawing : Ppu
drawing = record blank_ppu {
  vram = λ a. if a == 0x1a then 0xcc else 0;
  cur_scanline = 10;
  scanline_cycle = 7;
  x_offset = 16;
  fine_x_scroll = 3;
  tile_index = 1;
  bitplane0 = 0xaa;
}

draw_tile-IsDrawn_example :
    IsDrawn
      (first_pixel drawing)
      (columns 3 (drawn_tile drawing))
      (λ k. plane_bits 0xaa (upper_plane 2 drawing) (first_column 3 (drawn_tile drawing) - k))
      drawing
      (draw_tile 2 drawing)
unfolding render_cycle render_scanline read_pattern_table_column read_byte Vram.redirect_addr
draw_tile-IsDrawn_example =
    draw_tile-IsDrawn 2 drawing (omega arith) (omega arith) (omega arith) (omega arith)
      (omega arith) (omega arith)
