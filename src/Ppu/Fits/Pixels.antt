-- ===== src/Ppu/Fits/Pixels.antt =====
-- Pixels: colours, columns of tiles and the frame.
use neschan.Base.{
  ℕ, zero, suc, ◌+◌, ◌-◌, ◌*◌, ◌<◌, ◌≤◌, arith, Bool, true, bit_and, bit_or, ◌<<<◌, ◌>>>◌, u8, u16,
  IsBytes, update,
}
use neschan.Base.Widths.{bit_or-lt, bit_and-le}
use neschan.Ppu.State.{Ppu}
use neschan.Ppu.Pattern.{get_palette_color, read_pattern_table_column, palette_bit01, set_frame}
use neschan.Ppu.Tile.{draw_column, draw_columns}
use neschan.Ppu.Fits.{PpuFits, PpuFits-if}
use neschan.Ppu.Fits.Memory.{update-IsBytes, read_byte-lt}

-- A quotient by a power of two that masks one bit is a bit.
masked_bit : (b i : ℕ) → bit_and b (1 <<< i) >>> i ≤ 1
masked_bit b i = grind (arith, bit_and-le b (1 <<< i))

palette_bit01-lt : (b0 b1 i : ℕ) → palette_bit01 b0 b1 i < 4
unfolding palette_bit01
palette_bit01-lt b0 b1 i =
    bit_or-lt 2 _ _ (omega (arith, masked_bit b0 i)) (omega (arith, masked_bit b1 i))

pub get_palette_color-lt :
    (p : Ppu) (is_background : Bool) (index : ℕ)
    → IsBytes p.vram
    → get_palette_color p is_background index < 256
unfolding get_palette_color
get_palette_color-lt p is_background index h = ground (
  arith,
  read_byte-lt p 0x3f00 h,
  read_byte-lt p (bit_or 0x3f00 index) h,
  read_byte-lt p (bit_or 0x3f10 index) h,
)

pub column-lt :
    (p : Ppu) (sprite : Bool) (tile plane row : ℕ)
    → IsBytes p.vram
    → read_pattern_table_column p sprite tile plane row < 256
unfolding read_pattern_table_column
column-lt p sprite tile plane row h = read_byte-lt p _ h

pub set_frame-PpuFits : (addr v : ℕ) (p : Ppu) → v < 256 → PpuFits p → PpuFits (set_frame addr v p)
unfolding set_frame
set_frame-PpuFits addr v p lt f =
    PpuFits-if p.on_buffer_1 _ _
      (record {
        ports = omega (arith, f.ports);
        pipes = omega (arith, f.pipes);
        bytes = record {
          vram_bytes = f.bytes.vram_bytes;
          oam_bytes = f.bytes.oam_bytes;
          pixel_bytes = f.bytes.pixel_bytes;
          frame_1_bytes = update-IsBytes p.frame_buffer_1 addr v f.bytes.frame_1_bytes lt;
          frame_2_bytes = f.bytes.frame_2_bytes;
          bg_bits = f.bytes.bg_bits;
          sprites = f.bytes.sprites;
        };
      })
      (record {
        ports = omega (arith, f.ports);
        pipes = omega (arith, f.pipes);
        bytes = record {
          vram_bytes = f.bytes.vram_bytes;
          oam_bytes = f.bytes.oam_bytes;
          pixel_bytes = f.bytes.pixel_bytes;
          frame_1_bytes = f.bytes.frame_1_bytes;
          frame_2_bytes = update-IsBytes p.frame_buffer_2 addr v f.bytes.frame_2_bytes lt;
          bg_bits = f.bytes.bg_bits;
          sprites = f.bytes.sprites;
        };
      })

draw_column-PpuFits :
    (scanline bitplane1 i : ℕ) (p : Ppu) → PpuFits p → PpuFits (draw_column scanline bitplane1 i p)
unfolding draw_column
draw_column-PpuFits scanline bitplane1 i p f =
    let bit01 = palette_bit01 p.bitplane0 bitplane1 i in
    let addr = u16 (scanline * 256 + p.x_offset) in
    let index = bit_or p.tile_palette_bit32 bit01 in
    let color = get_palette_color p true index in
    let lt = get_palette_color-lt p true index f.bytes.vram_bytes in
    let g : PpuFits
        (record p { pixel_cycle = update p.pixel_cycle i color; x_offset = u8 (p.x_offset + 1) }) =
      record {
        ports = omega (arith, f.ports);
        pipes = omega (arith, f.pipes);
        bytes = record {
          vram_bytes = f.bytes.vram_bytes;
          oam_bytes = f.bytes.oam_bytes;
          pixel_bytes = update-IsBytes p.pixel_cycle i color f.bytes.pixel_bytes lt;
          frame_1_bytes = f.bytes.frame_1_bytes;
          frame_2_bytes = f.bytes.frame_2_bytes;
          bg_bits = f.bytes.bg_bits;
          sprites = f.bytes.sprites;
        };
      } in
    let h = set_frame-PpuFits addr color _ lt g in
    PpuFits-if _ _ _ g (record {
      ports = omega (arith, h.ports);
      pipes = omega (arith, h.pipes);
      bytes = record {
        vram_bytes = h.bytes.vram_bytes;
        oam_bytes = h.bytes.oam_bytes;
        pixel_bytes = h.bytes.pixel_bytes;
        frame_1_bytes = h.bytes.frame_1_bytes;
        frame_2_bytes = h.bytes.frame_2_bytes;
        bg_bits = λ k. ground (arith, f.bytes.bg_bits k, palette_bit01-lt p.bitplane0 bitplane1 i);
        sprites = h.bytes.sprites;
      };
    })

pub draw_columns-PpuFits :
    (left i scanline bitplane1 : ℕ) (p : Ppu)
    → PpuFits p
    → PpuFits (draw_columns left i scanline bitplane1 p)
unfolding draw_columns
draw_columns-PpuFits zero i scanline bitplane1 p f = f
draw_columns-PpuFits (suc left) i scanline bitplane1 p f =
    draw_columns-PpuFits left (i - 1) scanline bitplane1 _
      (draw_column-PpuFits scanline bitplane1 i p f)
