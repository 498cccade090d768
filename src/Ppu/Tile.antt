-- ===== src/Ppu/Tile.antt =====
-- The background: `fetch_tile` and `fetch_tile_pipeline` of lib/src/nes_ppu.cpp.
use neschan.Base.{
  ℕ, zero, suc, ◌+◌, ◌-◌, ◌*◌, ◌/◌, ◌%◌, bit_and, bit_or, bit_xor, ◌<<<◌, ◌>>>◌, ◌==◌, ltb, leb,
  if◌then◌else◌, u8, u16, Bool, true, false, not, update,
}
use neschan.Ppu.State.{Ppu, ppu_screen_x, ppu_screen_y}
use neschan.Ppu.Vram.{read_byte}
use neschan.Ppu.Pattern.{
  get_palette_color, read_pattern_table_column, palette_bit01, set_frame, frame_size,
}

-- `scanline_render_cycle` and the local `cur_scanline`.
unfoldable pub render_cycle : Ppu → ℕ
render_cycle p =
    if ltb 320 p.scanline_cycle then p.scanline_cycle - 321 else p.scanline_cycle + 16 - 1

unfoldable pub render_scanline : Ppu → ℕ
render_scanline p =
    if ltb 320 p.scanline_cycle then (u16 p.cur_scanline + 1) % ppu_screen_y else u16 p.cur_scanline

unfoldable pub fetch_name_table : Ppu → Ppu
fetch_name_table p = record p {
  tile_index = read_byte p (bit_or (bit_and p.ppu_addr 0xfff) 0x2000);
}

-- The two bits of the quadrant of the tile at `_ppu_addr`, from its attribute byte.
unfoldable pub attribute_bits : ℕ → ℕ → ℕ
attribute_bits ppu_addr color_byte =
    let tile_column = bit_and ppu_addr 0x1f in
    let tile_row = bit_and ppu_addr 0x3e0 >>> 5 in
    let quadrant_id = bit_and tile_row 0x2 + (bit_and tile_column 0x2 >>> 1) in
    bit_and color_byte (0x3 <<< (quadrant_id * 2)) >>> (quadrant_id * 2)

unfoldable pub attribute_addr : ℕ → ℕ
attribute_addr ppu_addr =
    let tile_column = bit_and ppu_addr 0x1f in
    let tile_row = bit_and ppu_addr 0x3e0 >>> 5 in
    let tile_attr_column = bit_and (tile_column >>> 2) 0x7 in
    let tile_attr_row = bit_and (tile_row >>> 2) 0x7 in
    bit_or (bit_or (bit_or 0x23c0 (bit_and ppu_addr 0x0c00)) (tile_attr_row <<< 3)) tile_attr_column

unfoldable pub fetch_attribute : Ppu → Ppu
unfolding attribute_bits attribute_addr
fetch_attribute p =
    let color_byte = read_byte p (attribute_addr p.ppu_addr) in
    record p { tile_palette_bit32 = attribute_bits p.ppu_addr color_byte <<< 2 }

-- One round of the loop over the columns of a tile, at column `i`.
unfoldable pub draw_column : ℕ → ℕ → ℕ → Ppu → Ppu
unfolding palette_bit01 set_frame
draw_column scanline bitplane1 i p =
    let bit01 = palette_bit01 p.bitplane0 bitplane1 i in
    let color = get_palette_color p true (bit_or p.tile_palette_bit32 bit01) in
    let frame_addr = u16 (scanline * ppu_screen_x + p.x_offset) in
    let q = record p {
      pixel_cycle = update p.pixel_cycle i color;
      x_offset = u8 (p.x_offset + 1);
    } in
    if leb frame_size frame_addr then q else record (set_frame frame_addr color q) {
      frame_buffer_bg = update q.frame_buffer_bg frame_addr bit01;
    }

-- `for (int i = start_bit; i >= end_bit; --i)`, with the rounds that are left.
unfoldable pub draw_columns : ℕ → ℕ → ℕ → ℕ → Ppu → Ppu
draw_columns zero i scanline bitplane1 p = p
draw_columns (suc left) i scanline bitplane1 p =
    draw_columns left (i - 1) scanline bitplane1 (draw_column scanline bitplane1 i p)

-- "Increment X position".
unfoldable pub increment_x : ℕ → ℕ
increment_x addr =
    if bit_and addr 0x1f == 0x1f then bit_xor (bit_and addr 0xffe0) 0x0400 else u16 (addr + 1)

-- Is there nothing to draw for this tile?
unfoldable pub skip_tile : ℕ → ℕ → Bool
skip_tile fine_x tile = if ltb 0 fine_x then ltb 32 tile else ltb 31 tile

unfoldable pub start_bit : ℕ → ℕ → ℕ
start_bit fine_x tile = if ltb 0 fine_x then if tile == 0 then 7 - fine_x else 7 else 7

unfoldable pub end_bit : ℕ → ℕ → ℕ
end_bit fine_x tile = if ltb 0 fine_x then if tile == 32 then 7 - fine_x + 1 else 0 else 0

unfoldable pub draw_tile : ℕ → Ppu → Ppu
unfolding draw_columns increment_x skip_tile start_bit end_bit
draw_tile row p =
    let bitplane1 = read_pattern_table_column p false p.tile_index 1 row in
    let tile = (render_cycle p - 6) / 8 in
    let start = start_bit p.fine_x_scroll tile in
    let stop = end_bit p.fine_x_scroll tile in
    let q = draw_columns (start + 1 - stop) start (render_scanline p) bitplane1 p in
    if skip_tile p.fine_x_scroll tile then p else record q { ppu_addr = increment_x q.ppu_addr }

unfoldable pub fetch_tile : Ppu → Ppu
unfolding render_cycle render_scanline fetch_name_table fetch_attribute draw_tile
fetch_tile p =
    let access = render_cycle p % 8 in
    let row = (render_scanline p + p.scroll_y) % 8 in
    if access == 0
    then fetch_name_table p
    else if access == 2
    then fetch_attribute p
    else if access == 4
    then record p { bitplane0 = read_pattern_table_column p false p.tile_index 0 row }
    else if access == 6
    then draw_tile row p
    else p

-- The step of the address at the end of a visible line.
unfoldable pub increment_y : ℕ → ℕ
increment_y addr =
    let a = bit_and addr 0x8fff in
    if not (bit_and addr 0x7000 == 0x7000)
    then u16 (addr + 0x1000)
    else if not (bit_and a 0x3e0 == 0x3a0)
    then u16 (a + 0x20)
    else bit_xor (bit_and a 0xfc1f) 0x0800

-- The horizontal bits of the address, from `_temp_ppu_addr`.
unfoldable pub reset_x : ℕ → ℕ → ℕ
reset_x addr temp = bit_or (bit_and addr 0xfbe0) (bit_and temp 0x041f)

unfoldable pub fetch_tile_pipeline : Ppu → Ppu
unfolding fetch_tile increment_y reset_x
fetch_tile_pipeline p =
    let q = fetch_tile p in
    if not p.show_bg
    then p
    else if p.scanline_cycle == 0
    then p
    else if ltb p.scanline_cycle 257
    then if p.scanline_cycle == 256 then record q { ppu_addr = increment_y q.ppu_addr } else q
    else if ltb p.scanline_cycle 321
    then if p.scanline_cycle == 257
      then record p { ppu_addr = reset_x p.ppu_addr p.temp_ppu_addr; x_offset = 0 }
      else p
    else if ltb p.scanline_cycle 337
    then q
    else p
