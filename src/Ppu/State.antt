-- ===== src/Ppu/State.antt =====
-- The state of `nes_ppu` (lib/inc/nes_ppu.h) and `nes_ppu::init` (lib/src/nes_ppu.cpp).
-- The two frame buffers stay apart, and `on_buffer_1` says which of them `_frame_buffer` points to.
-- The pointer `_system` is the record of the whole machine, in System/State.antt; `_mapper` is only
-- stored by the source, never read.
use neschan.Base.{ℕ, Bool, true, false, Bytes, if◌then◌else◌}

pub record SpriteInfo : Type 0 where
  pub pos_y : ℕ  -- uint8_t, off by 1
  pub tile_index : ℕ  -- uint8_t
  pub attr : ℕ  -- uint8_t
  pub pos_x : ℕ  -- uint8_t

pub record Ppu : Type 0 where
  pub vram : Bytes  -- uint8_t[0x4000]
  pub oam : Bytes  -- uint8_t[0x100]
  -- PPUCTRL
  pub name_tbl_addr : ℕ  -- uint16_t
  pub bg_pattern_tbl_addr : ℕ  -- uint16_t
  pub sprite_pattern_tbl_addr : ℕ  -- uint16_t
  pub ppu_addr_inc : ℕ  -- uint16_t
  pub vblank_nmi : Bool
  pub use_8x16_sprite : Bool
  pub sprite_height : ℕ  -- uint8_t
  -- PPUMASK
  pub show_bg : Bool
  pub show_sprites : Bool
  pub gray_scale_mode : Bool
  -- PPUSTATUS
  pub latch : ℕ  -- uint8_t
  pub sprite_overflow : Bool
  pub vblank_started : Bool
  pub sprite_0_hit : Bool
  -- OAMADDR, PPUSCROLL, PPUADDR, PPUDATA
  pub oam_addr : ℕ  -- uint8_t
  pub addr_toggle : Bool
  pub ppu_addr : ℕ  -- uint16_t
  pub temp_ppu_addr : ℕ  -- uint16_t
  pub fine_x_scroll : ℕ  -- uint8_t
  pub scroll_y : ℕ  -- uint8_t
  pub vram_read_buf : ℕ  -- uint8_t
  -- timing
  pub master_cycle : ℕ
  pub scanline_cycle : ℕ
  pub cur_scanline : ℕ  -- int
  pub frame_count : ℕ  -- uint32_t
  pub protect_register : Bool
  pub stop_after_frame : ℕ  -- uint32_t
  pub auto_stop : Bool
  -- rendering
  pub tile_index : ℕ  -- uint8_t
  pub tile_palette_bit32 : ℕ  -- uint8_t
  pub bitplane0 : ℕ  -- uint8_t
  pub on_buffer_1 : Bool
  pub frame_buffer_1 : Bytes
  pub frame_buffer_bg : Bytes
  pub frame_buffer_2 : Bytes
  pub pixel_cycle : Bytes  -- uint8_t[8]
  pub x_offset : ℕ  -- uint8_t
  -- sprites
  pub sprite_buf : ℕ → SpriteInfo  -- sprite_info[8]
  pub last_sprite_id : ℕ  -- uint8_t
  pub has_sprite_0 : Bool
  pub mask_oam_read : Bool
  pub sprite_pos_y : ℕ  -- uint8_t
  pub mirroring_flags : ℕ  -- nes_mapper_flags, masked by 3

abbrev pub ppu_vram_size : ℕ
ppu_vram_size = 0x4000

abbrev pub ppu_oam_size : ℕ
ppu_oam_size = 0x100

abbrev pub ppu_screen_x : ℕ
ppu_screen_x = 256

abbrev pub ppu_screen_y : ℕ
ppu_screen_y = 240

abbrev pub ppu_scanline_count : ℕ
ppu_scanline_count = 262

abbrev pub ppu_scanline_cycle : ℕ
ppu_scanline_cycle = 341

unfoldable pub init : Ppu → Ppu
init p = record p {
  name_tbl_addr = 0;
  bg_pattern_tbl_addr = 0;
  sprite_pattern_tbl_addr = 0;
  ppu_addr_inc = 1;
  vblank_nmi = false;
  use_8x16_sprite = false;
  sprite_height = 8;
  show_bg = false;
  show_sprites = false;
  gray_scale_mode = false;
  latch = 0;
  sprite_overflow = false;
  vblank_started = false;
  sprite_0_hit = false;
  oam_addr = 0;
  addr_toggle = false;
  ppu_addr = 0;
  temp_ppu_addr = 0;
  fine_x_scroll = 0;
  scroll_y = 0;
  vram_read_buf = 0;
  master_cycle = 0;
  scanline_cycle = 0;
  cur_scanline = 0;
  frame_count = 0;
  protect_register = false;
  stop_after_frame = 0xffffffff;
  auto_stop = false;
  on_buffer_1 = true;
  frame_buffer_1 = λ _. 0;
  frame_buffer_2 = λ _. 0;
  frame_buffer_bg = λ _. 0;
  last_sprite_id = 0;
  has_sprite_0 = false;
  mask_oam_read = false;
}

-- `frame_buffer()`, the completed buffer.
unfoldable pub frame_buffer : Ppu → Bytes
frame_buffer p = if p.on_buffer_1 then p.frame_buffer_2 else p.frame_buffer_1

-- `swap_buffer()`.
unfoldable pub swap_buffer : Ppu → Ppu
swap_buffer p = record p { on_buffer_1 = if p.on_buffer_1 then false else true }
