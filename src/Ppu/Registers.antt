-- ===== src/Ppu/Registers.antt =====
-- The registers of the PPU that the CPU reads and writes (lib/inc/nes_ppu.h). `write_OAMDMA`, which
-- calls the CPU, is in System/Bus.antt.
use neschan.Base.{
  ℕ, ◌+◌, ◌-◌, ◌*◌, bit_and, bit_or, ◌<<<◌, ◌>>>◌, ◌==◌, ltb, if◌then◌else◌, u8, u16, test_bits,
  Bool, false, not, update,
}
use neschan.Ppu.State.{Ppu}
use neschan.Ppu.Vram.{read_byte, write_byte}

unfoldable pub is_ready : Ppu → Bool
is_ready p = ltb 29658 p.master_cycle

unfoldable pub set_protect : Bool → Ppu → Ppu
set_protect set p = record p { protect_register = set }

unfoldable pub write_latch : ℕ → Ppu → Ppu
write_latch val p = if p.protect_register then p else record p { latch = val }

unfoldable pub read_latch : Ppu → ℕ
read_latch p = p.latch

-- What `write_PPUCTRL` does once the PPU is ready.
unfoldable pub set_ppuctrl : ℕ → Ppu → Ppu
set_ppuctrl val p = record p {
  temp_ppu_addr = bit_or (bit_and p.temp_ppu_addr 0xf3ff) (bit_and val 0x3 <<< 10);
  name_tbl_addr = 0x2000 + bit_and val 0x3 * 0x400;
  bg_pattern_tbl_addr = bit_and val 0x10 <<< 8;
  sprite_pattern_tbl_addr = bit_and val 0x8 <<< 8;
  use_8x16_sprite = test_bits val 0x20;
  sprite_height = if test_bits val 0x20 then 16 else 8;
  ppu_addr_inc = if test_bits val 0x4 then 0x20 else 1;
  vblank_nmi = test_bits val 0x80;
}

unfoldable pub write_ppuctrl : ℕ → Ppu → Ppu
unfolding is_ready write_latch set_ppuctrl
write_ppuctrl val p = if not (is_ready p) then p else set_ppuctrl val (write_latch val p)

unfoldable pub write_ppumask : ℕ → Ppu → Ppu
unfolding is_ready write_latch
write_ppumask val p = if not (is_ready p) then p else record (write_latch val p) {
  show_bg = test_bits val 0x8;
  show_sprites = test_bits val 0x10;
  gray_scale_mode = test_bits val 0x1;
}

-- `|=` of a mask under a flag.
abbrev pub or_if : Bool → ℕ → ℕ → ℕ
or_if b mask x = if b then bit_or x mask else x

-- The byte that `read_PPUSTATUS` returns.
unfoldable pub ppustatus : Ppu → ℕ
ppustatus p =
    or_if p.vblank_started 0x80
      (or_if p.sprite_overflow 0x20 (or_if p.sprite_0_hit 0x40 (bit_and p.latch 0x1f)))

unfoldable pub read_ppustatus : Ppu → ℕ × Ppu
unfolding ppustatus write_latch
read_ppustatus p = (
  ppustatus p,
  if not p.protect_register
      then write_latch (ppustatus p) (record p { vblank_started = false; addr_toggle = false })
      else p,
)

unfoldable pub write_oamaddr : ℕ → Ppu → Ppu
unfolding write_latch
write_oamaddr val p = record (write_latch val p) { oam_addr = val }

unfoldable pub write_oamdata : ℕ → Ppu → Ppu
unfolding write_latch
write_oamdata val p = record (write_latch val p) {
  oam = update p.oam p.oam_addr val;
  oam_addr = u8 (p.oam_addr + 1);
}

unfoldable pub read_oamdata : Ppu → ℕ × Ppu
unfolding write_latch
read_oamdata p =
    if p.mask_oam_read then (0xff, p) else (p.oam p.oam_addr, write_latch (p.oam p.oam_addr) p)

-- The first and the second write of `write_PPUSCROLL`.
unfoldable pub scroll_first : ℕ → Ppu → Ppu
scroll_first val p = record p {
  temp_ppu_addr = bit_or (bit_and p.temp_ppu_addr 0xffe0) (val >>> 3);
  fine_x_scroll = bit_and val 0x7;
}

unfoldable pub scroll_second : ℕ → Ppu → Ppu
scroll_second val p = record p {
  temp_ppu_addr =
      bit_or (bit_or (bit_and p.temp_ppu_addr 0xc1f) (bit_and val 0xf8 <<< 2))
        (bit_and val 0x7 <<< 12);
  scroll_y = val;
}

unfoldable pub write_ppuscroll : ℕ → Ppu → Ppu
unfolding is_ready write_latch scroll_first scroll_second
write_ppuscroll val p =
    let q = record (write_latch val p) { addr_toggle = not p.addr_toggle } in
    if not (is_ready p)
    then p
    else if not p.addr_toggle
    then scroll_first val q
    else scroll_second val q

-- The first and the second write of `write_PPUADDR`.
unfoldable pub ppuaddr_first : ℕ → Ppu → Ppu
ppuaddr_first val p = record p {
  temp_ppu_addr = bit_or (bit_and p.temp_ppu_addr 0x00ff) (bit_and val 0x3f <<< 8);
}

unfoldable pub ppuaddr_second : ℕ → Ppu → Ppu
ppuaddr_second val p =
    let t = bit_or (bit_and p.temp_ppu_addr 0xff00) val in
    record p { temp_ppu_addr = t; ppu_addr = t }

unfoldable pub write_ppuaddr : ℕ → Ppu → Ppu
unfolding write_latch ppuaddr_first ppuaddr_second
write_ppuaddr val p =
    let q = record (write_latch val p) { addr_toggle = not p.addr_toggle } in
    if not p.addr_toggle then ppuaddr_first val q else ppuaddr_second val q

-- `_ppu_addr += _ppu_addr_inc`.
unfoldable pub bump_ppu_addr : Ppu → Ppu
bump_ppu_addr p = record p { ppu_addr = u16 (p.ppu_addr + p.ppu_addr_inc) }

unfoldable pub write_ppudata : ℕ → Ppu → Ppu
unfolding write_latch bump_ppu_addr
write_ppudata val p = bump_ppu_addr (write_byte p.ppu_addr val (write_latch val p))

unfoldable pub is_palette : ℕ → Bool
is_palette addr = bit_and addr 0xff00 == 0x3f00

-- The update of the read buffer and of the address by `read_PPUDATA`.
unfoldable pub fill_read_buf : Ppu → Ppu
unfolding is_palette bump_ppu_addr
fill_read_buf p = bump_ppu_addr (record p {
  vram_read_buf =
      if is_palette p.ppu_addr then read_byte p (p.ppu_addr - 0x1000) else read_byte p p.ppu_addr;
})

unfoldable pub read_ppudata : Ppu → ℕ × Ppu
unfolding is_palette write_latch fill_read_buf
read_ppudata p = (
  if is_palette p.ppu_addr then read_byte p p.ppu_addr else p.vram_read_buf,
  write_latch p.vram_read_buf (if not p.protect_register then fill_read_buf p else p),
)
