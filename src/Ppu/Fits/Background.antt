-- ===== src/Ppu/Fits/Background.antt =====
-- The background pipeline.
use neschan.Base.{ℕ, ◌+◌, ◌-◌, ◌*◌, ◌/◌, ◌<◌, arith, false, bit_and, bit_or, ◌<<<◌, ◌>>>◌}
use neschan.Base.Widths.{or_word, xor_word, widths, bit_and-le}
use neschan.Ppu.State.{Ppu}
use neschan.Ppu.Vram.{read_byte}
use neschan.Ppu.Pattern.{read_pattern_table_column}
use neschan.Ppu.Tile.{
  render_cycle, render_scanline, fetch_name_table, attribute_bits, attribute_addr, fetch_attribute,
  draw_columns, increment_x, skip_tile, start_bit, end_bit, draw_tile, fetch_tile, increment_y,
  reset_x, fetch_tile_pipeline,
}
use neschan.Ppu.Fits.{PpuFits, PpuFits-if}
use neschan.Ppu.Fits.Memory.{read_byte-lt}
use neschan.Ppu.Fits.Pixels.{column-lt, draw_columns-PpuFits}

-- A new address or the start of a line.
with_addr : (a : ℕ) (p : Ppu) → a < 0x10000 → PpuFits p → PpuFits (record p { ppu_addr = a })
with_addr a p h f = record {
  ports = omega (arith, f.ports);
  pipes = omega (arith, f.pipes);
  bytes = f.bytes;
}

with_line :
    (a : ℕ) (p : Ppu) → a < 0x10000 → PpuFits p → PpuFits (record p { ppu_addr = a; x_offset = 0 })
with_line a p h f = record {
  ports = omega (arith, f.ports);
  pipes = omega (arith, f.pipes);
  bytes = f.bytes;
}

increment_x-lt : (a : ℕ) → increment_x a < 0x10000
unfolding increment_x
increment_x-lt a = ground (arith, xor_word (bit_and a 0xffe0) 0x0400 (omega widths) (omega arith))

increment_y-lt : (a : ℕ) → increment_y a < 0x10000
unfolding increment_y
increment_y-lt a =
    ground (arith, xor_word (bit_and (bit_and a 0x8fff) 0xfc1f) 0x0800 (omega widths) (omega arith))

reset_x-lt : (a t : ℕ) → reset_x a t < 0x10000
unfolding reset_x
reset_x-lt a t = or_word _ _ (omega widths) (omega widths)

draw_tile-PpuFits : (row : ℕ) (p : Ppu) → PpuFits p → PpuFits (draw_tile row p)
unfolding draw_tile
draw_tile-PpuFits row p f =
    let tile = (render_cycle p - 6) / 8 in
    let start = start_bit p.fine_x_scroll tile in
    let left = start + 1 - end_bit p.fine_x_scroll tile in
    let bitplane1 = read_pattern_table_column p false p.tile_index 1 row in
    let q = draw_columns left start (render_scanline p) bitplane1 p in
    PpuFits-if (skip_tile p.fine_x_scroll tile) p (record q { ppu_addr = increment_x q.ppu_addr }) f
      (with_addr (increment_x q.ppu_addr) q (increment_x-lt q.ppu_addr)
        (draw_columns-PpuFits left start (render_scanline p) bitplane1 p f))

-- A mask of two bits, moved to the quadrant and back.
quadrant-lt : (a b : ℕ) → attribute_bits a b < 4
unfolding attribute_bits
quadrant-lt a b =
    two_bits b ((bit_and (bit_and a 0x3e0 >>> 5) 0x2 + (bit_and (bit_and a 0x1f) 0x2 >>> 1)) * 2)
  where
    two_bits : (b k : ℕ) → bit_and b (0x3 <<< k) >>> k < 4
    two_bits b k = grind (arith, bit_and-le b (0x3 <<< k))

fetch_name_table-PpuFits : (p : Ppu) → PpuFits p → PpuFits (fetch_name_table p)
unfolding fetch_name_table
fetch_name_table-PpuFits p f = record {
  ports = omega (arith, f.ports);
  pipes = omega (
    arith,
    f.pipes,
    read_byte-lt p (bit_or (bit_and p.ppu_addr 0xfff) 0x2000) f.bytes.vram_bytes,
  );
  bytes = f.bytes;
}

fetch_attribute-PpuFits : (p : Ppu) → PpuFits p → PpuFits (fetch_attribute p)
unfolding fetch_attribute
fetch_attribute-PpuFits p f = record {
  ports = omega (arith, f.ports);
  pipes = omega (arith, f.pipes, quadrant-lt p.ppu_addr (read_byte p (attribute_addr p.ppu_addr)));
  bytes = f.bytes;
}

fetch_bitplane-PpuFits :
    (row : ℕ) (p : Ppu)
    → PpuFits p
    → PpuFits (record p { bitplane0 = read_pattern_table_column p false p.tile_index 0 row })
fetch_bitplane-PpuFits row p f = record {
  ports = omega (arith, f.ports);
  pipes = omega (arith, f.pipes, column-lt p false p.tile_index 0 row f.bytes.vram_bytes);
  bytes = f.bytes;
}

fetch_tile-PpuFits : (p : Ppu) → PpuFits p → PpuFits (fetch_tile p)
unfolding fetch_tile
fetch_tile-PpuFits p f =
    search
      (
        PpuFits-if, fetch_name_table-PpuFits, fetch_attribute-PpuFits, fetch_bitplane-PpuFits,
        draw_tile-PpuFits,
      )
      depth 8

-- The background pipeline.
pub fetch_tile_pipeline-PpuFits : (p : Ppu) → PpuFits p → PpuFits (fetch_tile_pipeline p)
unfolding fetch_tile_pipeline
fetch_tile_pipeline-PpuFits p f =
    search (PpuFits-if, fetch_tile-PpuFits, with_addr, with_line, increment_y-lt, reset_x-lt) depth
      10
