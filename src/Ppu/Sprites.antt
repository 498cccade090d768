-- ===== src/Ppu/Sprites.antt =====
-- The sprites: `fetch_sprite_pipeline` and `fetch_sprite` of lib/src/nes_ppu.cpp.
use neschan.Base.{
  ℕ, zero, suc, ◌+◌, ◌-◌, ◌*◌, ◌/◌, ◌%◌, bit_and, bit_or, ◌<<<◌, ◌==◌, ltb, leb, if◌then◌else◌, u8,
  u16, test_bits, Bool, true, false, not, ◌&&◌, ◌||◌, update,
}
use neschan.Ppu.State.{Ppu, SpriteInfo, ppu_screen_x}
use neschan.Ppu.Pattern.{
  get_sprite, get_palette_color, read_pattern_table_column, read_pattern_table_column_8x16_sprite,
  palette_bit01, set_frame, frame_size,
}

abbrev pub active_sprite_max : ℕ
active_sprite_max = 8

abbrev pub sprite_max : ℕ
sprite_max = 64

-- `memset(_sprite_buf, 0xff, ...)`.
abbrev pub blank_sprite : SpriteInfo
blank_sprite = record { pos_y = 0xff; tile_index = 0xff; attr = 0xff; pos_x = 0xff }

-- `(_cur_scanline - pos_y - 1) % _sprite_height` as a byte: C's `%` takes the sign of the left side.
unfoldable pub sprite_row : Ppu → SpriteInfo → ℕ
sprite_row p sprite =
    let row =
      if leb (sprite.pos_y + 1) p.cur_scanline
      then u8 ((p.cur_scanline - (sprite.pos_y + 1)) % p.sprite_height)
      else u8 (256 - (sprite.pos_y + 1 - p.cur_scanline) % p.sprite_height) in
    if test_bits sprite.attr 0x80 then u8 (p.sprite_height + 255 - row) else row

unfoldable pub sprite_bitplane : Ppu → SpriteInfo → ℕ → ℕ
unfolding sprite_row
sprite_bitplane p sprite plane =
    if p.use_8x16_sprite
    then read_pattern_table_column_8x16_sprite p sprite.tile_index plane (sprite_row p sprite)
    else read_pattern_table_column p true sprite.tile_index plane (sprite_row p sprite)

-- Where column `i` of a sprite stands in the frame.
unfoldable pub sprite_frame_addr : Ppu → SpriteInfo → ℕ → ℕ
sprite_frame_addr p sprite i = u16 (
    u16 (p.cur_scanline * ppu_screen_x + sprite.pos_x)
    + (if test_bits sprite.attr 0x40 then i else 7 - i))

-- One round of the loop over the columns of a sprite.
unfoldable pub draw_sprite_column : ℕ → SpriteInfo → ℕ → ℕ → ℕ → Ppu → Ppu
unfolding palette_bit01 set_frame sprite_frame_addr
draw_sprite_column sprite_id sprite bitplane0 bitplane1 i p =
    let bit01 = palette_bit01 bitplane0 bitplane1 i in
    let color = get_palette_color p false (bit_or (bit_and sprite.attr 0x3 <<< 2) bit01) in
    let frame_addr = sprite_frame_addr p sprite i in
    let is_sprite_0 = p.has_sprite_0 && (sprite_id == 0) in
    let behind_bg = test_bits sprite.attr 0x20 in
    let overlap = (behind_bg || is_sprite_0) && not (p.frame_buffer_bg frame_addr == 0) in
    let q = if overlap && is_sprite_0 then record p { sprite_0_hit = true } else p in
    if bit01 == 0
    then p
    else if leb frame_size frame_addr
    then p
    else if overlap && behind_bg
    then q
    else set_frame frame_addr color q

-- `for (int i = 7; i >= 0; --i)`: the next column is `i` with `suc i` rounds left.
unfoldable pub draw_sprite_columns : ℕ → ℕ → SpriteInfo → ℕ → ℕ → Ppu → Ppu
draw_sprite_columns zero sprite_id sprite bitplane0 bitplane1 p = p
draw_sprite_columns (suc i) sprite_id sprite bitplane0 bitplane1 p =
    draw_sprite_columns i sprite_id sprite bitplane0 bitplane1
      (draw_sprite_column sprite_id sprite bitplane0 bitplane1 i p)

unfoldable pub fetch_sprite : ℕ → Ppu → Ppu
unfolding sprite_bitplane draw_sprite_columns
fetch_sprite sprite_id p =
    let sprite = p.sprite_buf sprite_id in
    draw_sprite_columns 8 sprite_id sprite (sprite_bitplane p sprite 0) (sprite_bitplane p sprite 1)
      p

unfoldable pub clear_sprites : Ppu → Ppu
clear_sprites p = record p {
  last_sprite_id = 0;
  has_sprite_0 = false;
  sprite_buf = λ _. blank_sprite;
  sprite_overflow = false;
}

-- Is the line inside the sprite whose Y was read last?
unfoldable pub in_range : Ppu → Bool
in_range p =
    leb (p.sprite_pos_y + 1) p.cur_scanline
    && ltb p.cur_scanline (p.sprite_pos_y + 1 + p.sprite_height)

-- The even cycle of the evaluation of a sprite.
unfoldable pub add_sprite : ℕ → Ppu → Ppu
add_sprite sprite_id p =
    let q = if sprite_id == 0 then record p { has_sprite_0 = true } else p in
    if leb active_sprite_max p.last_sprite_id
    then record q { sprite_overflow = true }
    else record q {
      sprite_buf = update p.sprite_buf p.last_sprite_id (get_sprite p sprite_id);
      last_sprite_id = u8 (p.last_sprite_id + 1);
    }

unfoldable pub evaluate_sprite : Ppu → Ppu
unfolding in_range add_sprite
evaluate_sprite p =
    let q = record p { mask_oam_read = false } in
    let sprite_id = u8 (p.scanline_cycle - 65) / 2 in
    if leb sprite_max sprite_id
    then q
    else if p.scanline_cycle % 2 == 0
    then if in_range q then add_sprite sprite_id q else q
    else record q { sprite_pos_y = (get_sprite q sprite_id).pos_y }

unfoldable pub fetch_sprite_pipeline : Ppu → Ppu
unfolding clear_sprites evaluate_sprite fetch_sprite
fetch_sprite_pipeline p =
    let sprite_cycle = u8 (p.scanline_cycle - 257) in
    let sprite_id = sprite_cycle / 8 in
    if not p.show_sprites
    then p
    else if p.cur_scanline == 0
    then p
    else if p.scanline_cycle == 0
    then clear_sprites p
    else if ltb p.scanline_cycle 65
    then record p { mask_oam_read = true }
    else if ltb p.scanline_cycle 257
    then evaluate_sprite p
    else if ltb p.scanline_cycle 321
    then if (sprite_cycle % 8 == 4) && ltb sprite_id p.last_sprite_id
      then fetch_sprite sprite_id p
      else p
    else p
