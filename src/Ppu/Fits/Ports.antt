-- ===== src/Ppu/Fits/Ports.antt =====
-- Reads and writes of the ports.
use neschan.Base.{
  ℕ, ◌-◌, ◌<◌, arith, if◌then◌else◌, Bool, true, false, not, bit_and, bit_or, ◌<<<◌, ◌>>>◌,
}
use neschan.Base.Widths.{or_byte, or_word, widths, bit_and-le}
use neschan.Ppu.State.{Ppu}
use neschan.Ppu.Registers.{
  write_latch, read_latch, set_ppuctrl, write_ppuctrl, write_ppumask, or_if, ppustatus,
  read_ppustatus, write_oamaddr, write_oamdata, read_oamdata, scroll_first, scroll_second,
  write_ppuscroll, ppuaddr_first, ppuaddr_second, write_ppuaddr, bump_ppu_addr, write_ppudata,
  fill_read_buf, read_ppudata,
}
use neschan.Ppu.Fits.{PpuFits, PpuFits-if}
use neschan.Ppu.Fits.Memory.{update-IsBytes, with_oam, write_byte-PpuFits, read_byte-lt}

pub write_latch-PpuFits : (v : ℕ) (p : Ppu) → v < 256 → PpuFits p → PpuFits (write_latch v p)
unfolding write_latch
write_latch-PpuFits v p lt f =
    PpuFits-if _ _ _ f
      (record { ports = omega (arith, f.ports); pipes = omega (arith, f.pipes); bytes = f.bytes })

set_ppuctrl-PpuFits : (v : ℕ) (p : Ppu) → PpuFits p → PpuFits (set_ppuctrl v p)
unfolding set_ppuctrl
set_ppuctrl-PpuFits v p f = record {
  ports = ground (
    arith,
    f.ports,
    or_word (bit_and p.temp_ppu_addr 0xf3ff) (bit_and v 0x3 <<< 10) (omega widths) (omega widths),
    bit_and-le v 0x3,
    bit_and-le v 0x10,
    bit_and-le v 0x8,
  );
  pipes = omega (arith, f.pipes);
  bytes = f.bytes;
}

pub write_ppuctrl-PpuFits : (v : ℕ) (p : Ppu) → v < 256 → PpuFits p → PpuFits (write_ppuctrl v p)
unfolding write_ppuctrl
write_ppuctrl-PpuFits v p lt f =
    PpuFits-if _ _ _ f (set_ppuctrl-PpuFits v _ (write_latch-PpuFits v p lt f))

pub write_ppumask-PpuFits : (v : ℕ) (p : Ppu) → v < 256 → PpuFits p → PpuFits (write_ppumask v p)
unfolding write_ppumask
write_ppumask-PpuFits v p lt f =
    let g = write_latch-PpuFits v p lt f in
    PpuFits-if _ _ _ f
      (record { ports = omega (arith, g.ports); pipes = omega (arith, g.pipes); bytes = g.bytes })

or_if_byte : (b : Bool) (mask x : ℕ) → mask < 256 → x < 256 → or_if b mask x < 256
or_if_byte true mask x h k = or_byte x mask k h
or_if_byte false mask x h k = k

ppustatus-lt : (p : Ppu) → ppustatus p < 256
unfolding ppustatus
ppustatus-lt p = or_if_byte p.vblank_started 0x80 _ (omega arith) (
    or_if_byte p.sprite_overflow 0x20 _ (omega arith)
      (or_if_byte p.sprite_0_hit 0x40 _ (omega arith) (omega (arith, bit_and-le p.latch 0x1f))))

-- A read gives a byte, and leaves the PPU as it should be.
pub record ReadFits (r : ℕ × Ppu) : Type 0 where
  pub value : r.0 < 256
  pub after : PpuFits r.1

pub read_ppustatus-ReadFits : (p : Ppu) → PpuFits p → ReadFits (read_ppustatus p)
unfolding read_ppustatus
read_ppustatus-ReadFits p f = record {
  value = ppustatus-lt p;
  after = PpuFits-if _ _ _ (write_latch-PpuFits _ _ (ppustatus-lt p) cleared) f;
}
  where
    cleared : PpuFits (record p { vblank_started = false; addr_toggle = false })
    cleared = record {
      ports = omega (arith, f.ports);
      pipes = omega (arith, f.pipes);
      bytes = f.bytes;
    }

pub write_oamaddr-PpuFits : (v : ℕ) (p : Ppu) → v < 256 → PpuFits p → PpuFits (write_oamaddr v p)
unfolding write_oamaddr
write_oamaddr-PpuFits v p lt f =
    let g = write_latch-PpuFits v p lt f in
    record { ports = omega (arith, g.ports); pipes = omega (arith, g.pipes); bytes = g.bytes }

pub write_oamdata-PpuFits : (v : ℕ) (p : Ppu) → v < 256 → PpuFits p → PpuFits (write_oamdata v p)
unfolding write_oamdata
write_oamdata-PpuFits v p lt f =
    let g = write_latch-PpuFits v p lt f in
    let o =
      with_oam (write_latch v p) _ g (update-IsBytes p.oam p.oam_addr v f.bytes.oam_bytes lt) in
    record { ports = omega (arith, o.ports); pipes = omega (arith, o.pipes); bytes = o.bytes }

pub read_oamdata-ReadFits : (p : Ppu) → PpuFits p → ReadFits (read_oamdata p)
unfolding read_oamdata
read_oamdata-ReadFits p f = go p.mask_oam_read
  where
    go :
        (b : Bool)
        → ReadFits (if b then (0xff, p) else (p.oam p.oam_addr, write_latch (p.oam p.oam_addr) p))
    go true = record { value = omega arith; after = f }
    go false =
        let lt = f.bytes.oam_bytes p.oam_addr in
        record { value = lt; after = write_latch-PpuFits _ p lt f }

scroll_first-PpuFits : (v : ℕ) (p : Ppu) → v < 256 → PpuFits p → PpuFits (scroll_first v p)
unfolding scroll_first
scroll_first-PpuFits v p lt f = record {
  ports = omega (
    arith,
    f.ports,
    bit_and-le v 0x7,
    or_word (bit_and p.temp_ppu_addr 0xffe0) (v >>> 3) (omega widths) (omega arith),
  );
  pipes = omega (arith, f.pipes);
  bytes = f.bytes;
}

scroll_second-PpuFits : (v : ℕ) (p : Ppu) → v < 256 → PpuFits p → PpuFits (scroll_second v p)
unfolding scroll_second
scroll_second-PpuFits v p lt f = record {
  ports = omega (
    arith,
    f.ports,
    or_word (bit_or (bit_and p.temp_ppu_addr 0xc1f) (bit_and v 0xf8 <<< 2)) (bit_and v 0x7 <<< 12)
        (or_word (bit_and p.temp_ppu_addr 0xc1f) (bit_and v 0xf8 <<< 2) (omega widths)
          (omega widths))
        (omega widths),
  );
  pipes = omega (arith, f.pipes);
  bytes = f.bytes;
}

-- The latch is written and the toggle turned before either write.
toggled :
    (v : ℕ) (b : Bool) (p : Ppu)
    → v < 256
    → PpuFits p
    → PpuFits (record (write_latch v p) { addr_toggle = b })
toggled v b p lt f =
    let g = write_latch-PpuFits v p lt f in
    record { ports = omega (arith, g.ports); pipes = omega (arith, g.pipes); bytes = g.bytes }

pub write_ppuscroll-PpuFits :
    (v : ℕ) (p : Ppu) → v < 256 → PpuFits p → PpuFits (write_ppuscroll v p)
unfolding write_ppuscroll
write_ppuscroll-PpuFits v p lt f =
    let g = toggled v (not p.addr_toggle) p lt f in
    PpuFits-if _ _ _ f
      (PpuFits-if _ _ _ (scroll_first-PpuFits v _ lt g) (scroll_second-PpuFits v _ lt g))

ppuaddr_first-PpuFits : (v : ℕ) (p : Ppu) → PpuFits p → PpuFits (ppuaddr_first v p)
unfolding ppuaddr_first
ppuaddr_first-PpuFits v p f = record {
  ports = omega (
    arith,
    f.ports,
    or_word (bit_and p.temp_ppu_addr 0x00ff) (bit_and v 0x3f <<< 8) (omega widths) (omega widths),
  );
  pipes = omega (arith, f.pipes);
  bytes = f.bytes;
}

ppuaddr_second-PpuFits : (v : ℕ) (p : Ppu) → v < 256 → PpuFits p → PpuFits (ppuaddr_second v p)
unfolding ppuaddr_second
ppuaddr_second-PpuFits v p lt f = record {
  ports =
      omega
        (arith, f.ports, or_word (bit_and p.temp_ppu_addr 0xff00) v (omega widths) (omega arith));
  pipes = omega (arith, f.pipes);
  bytes = f.bytes;
}

pub write_ppuaddr-PpuFits : (v : ℕ) (p : Ppu) → v < 256 → PpuFits p → PpuFits (write_ppuaddr v p)
unfolding write_ppuaddr
write_ppuaddr-PpuFits v p lt f =
    let g = toggled v (not p.addr_toggle) p lt f in
    PpuFits-if _ _ _ (ppuaddr_first-PpuFits v _ g) (ppuaddr_second-PpuFits v _ lt g)

bump_ppu_addr-PpuFits : (p : Ppu) → PpuFits p → PpuFits (bump_ppu_addr p)
unfolding bump_ppu_addr
bump_ppu_addr-PpuFits p f = record {
  ports = omega (arith, f.ports);
  pipes = omega (arith, f.pipes);
  bytes = f.bytes;
}

pub write_ppudata-PpuFits : (v : ℕ) (p : Ppu) → v < 256 → PpuFits p → PpuFits (write_ppudata v p)
unfolding write_ppudata
write_ppudata-PpuFits v p lt f =
    bump_ppu_addr-PpuFits _ (write_byte-PpuFits _ v _ lt (write_latch-PpuFits v p lt f))

fill_read_buf-PpuFits : (p : Ppu) → PpuFits p → PpuFits (fill_read_buf p)
unfolding fill_read_buf
fill_read_buf-PpuFits p f = bump_ppu_addr-PpuFits _ (record {
  ports = ground (
    arith,
    f.ports,
    read_byte-lt p (p.ppu_addr - 0x1000) f.bytes.vram_bytes,
    read_byte-lt p p.ppu_addr f.bytes.vram_bytes,
  );
  pipes = omega (arith, f.pipes);
  bytes = f.bytes;
})

pub read_ppudata-ReadFits : (p : Ppu) → PpuFits p → ReadFits (read_ppudata p)
unfolding read_ppudata
read_ppudata-ReadFits p f = record {
  value = ground (arith, f.ports, read_byte-lt p p.ppu_addr f.bytes.vram_bytes);
  after =
      write_latch-PpuFits _ _ (omega (arith, f.ports))
        (PpuFits-if _ _ _ (fill_read_buf-PpuFits p f) f);
}

pub read_latch-ReadFits : (p : Ppu) → PpuFits p → ReadFits (read_latch p, p)
unfolding read_latch
read_latch-ReadFits p f = record { value = omega (arith, f.ports); after = f }
