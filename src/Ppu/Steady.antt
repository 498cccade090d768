-- ===== src/Ppu/Steady.antt =====
-- The registers of the PPU (lib/inc/nes_ppu.h) never move the beam.
use neschan.Base.{ℕ, ◌≡◌, refl, arith}
use neschan.Ppu.State.{Ppu}
use neschan.Ppu.Vram.{write_byte}
use neschan.Ppu.Registers.{
  write_latch, set_ppuctrl, write_ppuctrl, write_ppumask, read_ppustatus, write_oamaddr,
  write_oamdata, read_oamdata, scroll_first, scroll_second, write_ppuscroll, ppuaddr_first,
  ppuaddr_second, write_ppuaddr, bump_ppu_addr, write_ppudata, fill_read_buf, read_ppudata,
}

-- The beam and the clock are where they were.
pub record IsSteady (p q : Ppu) : Type 0 where
  pub clock : q.master_cycle ≡ p.master_cycle
  pub cycle : q.scanline_cycle ≡ p.scanline_cycle
  pub scanline : q.cur_scanline ≡ p.cur_scanline

pub IsSteady-refl : (p : Ppu) → IsSteady p p
IsSteady-refl p = record { clock = refl; cycle = refl; scanline = refl }

-- The registers of the PPU leave the beam alone.
module _ (val : ℕ) (p : Ppu) where
  pub write_latch-IsSteady : IsSteady p (write_latch val p)
  unfolding write_latch
  write_latch-IsSteady = record {
    clock = ground arith;
    cycle = ground arith;
    scanline = ground arith;
  }

  pub write_ppuctrl-IsSteady : IsSteady p (write_ppuctrl val p)
  unfolding write_ppuctrl set_ppuctrl write_latch
  write_ppuctrl-IsSteady = record {
    clock = ground arith;
    cycle = ground arith;
    scanline = ground arith;
  }

  pub write_ppumask-IsSteady : IsSteady p (write_ppumask val p)
  unfolding write_ppumask write_latch
  write_ppumask-IsSteady = record {
    clock = ground arith;
    cycle = ground arith;
    scanline = ground arith;
  }

  pub write_oamaddr-IsSteady : IsSteady p (write_oamaddr val p)
  unfolding write_oamaddr write_latch
  write_oamaddr-IsSteady = record {
    clock = ground arith;
    cycle = ground arith;
    scanline = ground arith;
  }

  pub write_oamdata-IsSteady : IsSteady p (write_oamdata val p)
  unfolding write_oamdata write_latch
  write_oamdata-IsSteady = record {
    clock = ground arith;
    cycle = ground arith;
    scanline = ground arith;
  }

  pub write_ppuscroll-IsSteady : IsSteady p (write_ppuscroll val p)
  unfolding write_ppuscroll scroll_first scroll_second write_latch
  write_ppuscroll-IsSteady = record {
    clock = ground arith;
    cycle = ground arith;
    scanline = ground arith;
  }

  pub write_ppuaddr-IsSteady : IsSteady p (write_ppuaddr val p)
  unfolding write_ppuaddr ppuaddr_first ppuaddr_second write_latch
  write_ppuaddr-IsSteady = record {
    clock = ground arith;
    cycle = ground arith;
    scanline = ground arith;
  }

  pub write_ppudata-IsSteady : IsSteady p (write_ppudata val p)
  unfolding write_ppudata bump_ppu_addr write_byte write_latch
  write_ppudata-IsSteady = record {
    clock = ground arith;
    cycle = ground arith;
    scanline = ground arith;
  }

pub read_ppustatus-IsSteady : (p : Ppu) → IsSteady p (read_ppustatus p).1
unfolding read_ppustatus write_latch
read_ppustatus-IsSteady p = record {
  clock = ground arith;
  cycle = ground arith;
  scanline = ground arith;
}

pub read_oamdata-IsSteady : (p : Ppu) → IsSteady p (read_oamdata p).1
unfolding read_oamdata write_latch
read_oamdata-IsSteady p = record {
  clock = ground arith;
  cycle = ground arith;
  scanline = ground arith;
}

pub read_ppudata-IsSteady : (p : Ppu) → IsSteady p (read_ppudata p).1
unfolding read_ppudata fill_read_buf bump_ppu_addr write_latch
read_ppudata-IsSteady p = record {
  clock = ground arith;
  cycle = ground arith;
  scanline = ground arith;
}
