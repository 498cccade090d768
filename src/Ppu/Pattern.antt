-- ===== src/Ppu/Pattern.antt =====
-- Reading tiles, colours and sprites: the small private functions of lib/inc/nes_ppu.h.
use neschan.Base.{ℕ, ◌+◌, ◌*◌, bit_and, bit_or, ◌<<<◌, ◌>>>◌, ◌==◌, if◌then◌else◌, Bool, update}
use neschan.Ppu.State.{Ppu, SpriteInfo}
use neschan.Ppu.Vram.{read_byte}

unfoldable pub get_sprite : Ppu → ℕ → SpriteInfo
get_sprite p sprite_id = record {
  pos_y = p.oam (4 * sprite_id);
  tile_index = p.oam (4 * sprite_id + 1);
  attr = p.oam (4 * sprite_id + 2);
  pos_x = p.oam (4 * sprite_id + 3);
}

unfoldable pub get_palette_color : Ppu → Bool → ℕ → ℕ
get_palette_color p is_background index =
    if bit_and index 0x3 == 0
    then read_byte p 0x3f00
    else read_byte p (bit_or (if is_background then 0x3f00 else 0x3f10) index)

unfoldable pub read_pattern_table_column : Ppu → Bool → ℕ → ℕ → ℕ → ℕ
read_pattern_table_column p sprite tile_index bitplane row =
    let base = if sprite then p.sprite_pattern_tbl_addr else p.bg_pattern_tbl_addr in
    let tile_addr = bit_or base (tile_index <<< 4) in
    read_byte p (bit_or (bit_or tile_addr (bitplane <<< 3)) row)

unfoldable pub read_pattern_table_column_8x16_sprite : Ppu → ℕ → ℕ → ℕ → ℕ
read_pattern_table_column_8x16_sprite p tile_index bitplane row =
    let tile_addr = bit_or (bit_and tile_index 0x1 <<< 12) (bit_and tile_index 0xfe <<< 4) in
    read_byte p (
      bit_or (bit_or (bit_or tile_addr (bitplane <<< 3)) (bit_and row 0x7)) (bit_and row 0x8 <<< 1))

-- The two bits of a column: `((b0 & mask) >> i) | ((b1 & mask) >> i << 1)`.
unfoldable pub palette_bit01 : ℕ → ℕ → ℕ → ℕ
palette_bit01 b0 b1 i =
    let column_mask = 1 <<< i in
    bit_or (bit_and b0 column_mask >>> i) (bit_and b1 column_mask >>> i <<< 1)

-- `_frame_buffer[addr] = val`.
unfoldable pub set_frame : ℕ → ℕ → Ppu → Ppu
set_frame addr val p =
    if p.on_buffer_1
    then record p { frame_buffer_1 = update p.frame_buffer_1 addr val }
    else record p { frame_buffer_2 = update p.frame_buffer_2 addr val }

abbrev pub frame_size : ℕ
frame_size = 61440
