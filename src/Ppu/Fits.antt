-- ===== src/Ppu/Fits.antt =====
-- The fields of the PPU stay within their C types, and within what the code relies on
-- (lib/inc/nes_ppu.h).
pub mod Ports
pub mod Memory
pub mod Pixels
pub mod Background
pub mod Sprites
use neschan.Base.{ℕ, ◌<◌, ◌≤◌, Bytes, IsBytes, Bool, true, false, if◌then◌else◌}
use neschan.Ppu.State.{Ppu, SpriteInfo}

pub record SpriteFits (i : SpriteInfo) : Type 0 where
  pub pos_y : i.pos_y < 256
  pub tile_index : i.tile_index < 256
  pub attr : i.attr < 256
  pub pos_x : i.pos_x < 256

-- What the ports, the numbers of frames and the mode of mirroring hold.
pub record PortsFit (p : Ppu) : Type 0 where
  pub latch : p.latch < 256
  pub oam_addr : p.oam_addr < 256
  pub ppu_addr : p.ppu_addr < 0x10000
  pub temp_ppu_addr : p.temp_ppu_addr < 0x10000
  pub fine_x_scroll : p.fine_x_scroll < 8
  pub scroll_y : p.scroll_y < 256
  pub vram_read_buf : p.vram_read_buf < 256
  pub sprite_height : p.sprite_height ≤ 16
  pub some_height : 8 ≤ p.sprite_height
  pub name_tbl_addr : p.name_tbl_addr < 0x10000
  pub bg_pattern_tbl_addr : p.bg_pattern_tbl_addr < 0x10000
  pub sprite_pattern_tbl_addr : p.sprite_pattern_tbl_addr < 0x10000
  pub ppu_addr_inc : p.ppu_addr_inc < 0x10000
  pub frame_count : p.frame_count < 0x100000000
  pub stop_after_frame : p.stop_after_frame < 0x100000000
  pub mirroring_flags : p.mirroring_flags < 4

-- What the pipelines hold.
pub record PipesFit (p : Ppu) : Type 0 where
  pub tile_index : p.tile_index < 256
  pub tile_palette_bit32 : p.tile_palette_bit32 < 256
  pub bitplane0 : p.bitplane0 < 256
  pub x_offset : p.x_offset < 256
  pub last_sprite_id : p.last_sprite_id ≤ 8
  pub sprite_pos_y : p.sprite_pos_y < 256

-- The arrays, apart from the record that has them. A background buffer holds numbers of two bits.
pub record ArraysFit (vram oam pixel_cycle frame_buffer_1 frame_buffer_2 frame_buffer_bg : Bytes)
    (sprite_buf : ℕ → SpriteInfo) : Type 0 where
  pub vram_bytes : IsBytes vram
  pub oam_bytes : IsBytes oam
  pub pixel_bytes : IsBytes pixel_cycle
  pub frame_1_bytes : IsBytes frame_buffer_1
  pub frame_2_bytes : IsBytes frame_buffer_2
  pub bg_bits : (i : ℕ) → frame_buffer_bg i < 4
  pub sprites : (i : ℕ) → SpriteFits (sprite_buf i)

abbrev pub BytesFit : Ppu → Type 0
BytesFit p =
    ArraysFit p.vram p.oam p.pixel_cycle p.frame_buffer_1 p.frame_buffer_2 p.frame_buffer_bg
      p.sprite_buf

pub record PpuFits (p : Ppu) : Type 0 where
  pub ports : PortsFit p
  pub pipes : PipesFit p
  pub bytes : BytesFit p

pub PpuFits-if : (b : Bool) (p q : Ppu) → PpuFits p → PpuFits q → PpuFits (if b then p else q)
PpuFits-if true p q f g = f
PpuFits-if false p q f g = g
