-- ===== src/Ppu/Drawing.antt =====
-- What the pipelines of lib/src/nes_ppu.cpp leave alone: they draw into the frame and nowhere else, and
-- never move the beam.
pub mod Lines
pub mod Columns
pub mod Tile
use neschan.Base.{
  ℕ, zero, suc, ◌+◌, ◌-◌, ◌/◌, ◌≤◌, ◌≡◌, refl, ◌∙◌, arith, if◌then◌else◌, Bool, true, false, Bytes,
}
use neschan.Ppu.State.{Ppu, SpriteInfo}
use neschan.Ppu.Pattern.{set_frame, frame_size, read_pattern_table_column}
use neschan.Ppu.Tile.{
  render_cycle, render_scanline, increment_x, skip_tile, start_bit, end_bit, fetch_name_table,
  fetch_attribute, draw_column, draw_columns, draw_tile, fetch_tile, fetch_tile_pipeline,
}
use neschan.Ppu.Sprites.{
  draw_sprite_column, draw_sprite_columns, fetch_sprite, clear_sprites, in_range, add_sprite,
  evaluate_sprite, fetch_sprite_pipeline,
}

-- Two buffers that differ within the frame only.
abbrev pub IsFramed : Bytes → Bytes → Type 0
IsFramed f g = (i : ℕ) → frame_size ≤ i → g i ≡ f i

pub record IsDrawing (p q : Ppu) : Type 0 where
  pub clock : q.master_cycle ≡ p.master_cycle
  pub cycle : q.scanline_cycle ≡ p.scanline_cycle
  pub scanline : q.cur_scanline ≡ p.cur_scanline
  pub frames : q.frame_count ≡ p.frame_count
  pub vram : q.vram ≡ p.vram
  pub oam : q.oam ≡ p.oam
  pub in_frame_1 : IsFramed p.frame_buffer_1 q.frame_buffer_1
  pub in_frame_2 : IsFramed p.frame_buffer_2 q.frame_buffer_2
  pub in_frame_bg : IsFramed p.frame_buffer_bg q.frame_buffer_bg
  pub sprites : p.last_sprite_id ≤ 8 → q.last_sprite_id ≤ 8

pub IsDrawing-refl : (p : Ppu) → IsDrawing p p
IsDrawing-refl p = record {
  clock = refl;
  cycle = refl;
  scanline = refl;
  frames = refl;
  vram = refl;
  oam = refl;
  in_frame_1 = λ i h. refl;
  in_frame_2 = λ i h. refl;
  in_frame_bg = λ i h. refl;
  sprites = λ h. h;
}

pub IsDrawing-then : (p q r : Ppu) → IsDrawing p q → IsDrawing q r → IsDrawing p r
IsDrawing-then p q r d e = record {
  clock = e.clock ∙ d.clock;
  cycle = e.cycle ∙ d.cycle;
  scanline = e.scanline ∙ d.scanline;
  frames = e.frames ∙ d.frames;
  vram = e.vram ∙ d.vram;
  oam = e.oam ∙ d.oam;
  in_frame_1 = λ i h. e.in_frame_1 i h ∙ d.in_frame_1 i h;
  in_frame_2 = λ i h. e.in_frame_2 i h ∙ d.in_frame_2 i h;
  in_frame_bg = λ i h. e.in_frame_bg i h ∙ d.in_frame_bg i h;
  sprites = λ h. e.sprites (d.sprites h);
}

pub IsDrawing-if :
    (b : Bool) (p q r : Ppu) → IsDrawing p q → IsDrawing p r → IsDrawing p (if b then q else r)
IsDrawing-if true p q r d e = d
IsDrawing-if false p q r d e = e

pub ruleset drawing_rules = (IsDrawing-refl, IsDrawing-if)

draw_column-IsDrawing :
    (scanline bitplane1 i : ℕ) (p : Ppu) → IsDrawing p (draw_column scanline bitplane1 i p)
unfolding draw_column set_frame
draw_column-IsDrawing scanline bitplane1 i p = record {
  clock = ground arith;
  cycle = ground arith;
  scanline = ground arith;
  frames = ground arith;
  vram = ground arith;
  oam = ground arith;
  in_frame_1 = λ i h. ground (arith, h);
  in_frame_2 = λ i h. ground (arith, h);
  in_frame_bg = λ i h. ground (arith, h);
  sprites = λ h. ground (arith, h);
}

draw_columns-IsDrawing :
    (left i scanline bitplane1 : ℕ) (p : Ppu)
    → IsDrawing p (draw_columns left i scanline bitplane1 p)
unfolding draw_columns
draw_columns-IsDrawing zero i scanline bitplane1 p = IsDrawing-refl p
draw_columns-IsDrawing (suc left) i scanline bitplane1 p =
    IsDrawing-then _ _ _ (draw_column-IsDrawing scanline bitplane1 i p)
      (draw_columns-IsDrawing left (i - 1) scanline bitplane1 _)

-- A change of registers that have no part in the beam or in the frame.
with_addr : (p q : Ppu) (a : ℕ) → IsDrawing p q → IsDrawing p (record q { ppu_addr = a })
with_addr p q a d = record {
  clock = d.clock;
  cycle = d.cycle;
  scanline = d.scanline;
  frames = d.frames;
  vram = d.vram;
  oam = d.oam;
  in_frame_1 = d.in_frame_1;
  in_frame_2 = d.in_frame_2;
  in_frame_bg = d.in_frame_bg;
  sprites = d.sprites;
}

draw_tile-IsDrawing : (row : ℕ) (p : Ppu) → IsDrawing p (draw_tile row p)
unfolding draw_tile
draw_tile-IsDrawing row p =
    let tile = (render_cycle p - 6) / 8 in
    let start = start_bit p.fine_x_scroll tile in
    let left = start + 1 - end_bit p.fine_x_scroll tile in
    let bitplane1 = read_pattern_table_column p false p.tile_index 1 row in
    let q = draw_columns left start (render_scanline p) bitplane1 p in
    IsDrawing-if (skip_tile p.fine_x_scroll tile) p p
      (record q { ppu_addr = increment_x q.ppu_addr }) (IsDrawing-refl p)
      (with_addr p q (increment_x q.ppu_addr)
        (draw_columns-IsDrawing left start (render_scanline p) bitplane1 p))

-- What keeps every field that counts computes away.
abbrev same :
    (p : Ppu)
    → (t b0 b32 : ℕ)
    → IsDrawing p (record p { tile_index = t; bitplane0 = b0; tile_palette_bit32 = b32 })
same p t b0 b32 = record {
  clock = refl;
  cycle = refl;
  scanline = refl;
  frames = refl;
  vram = refl;
  oam = refl;
  in_frame_1 = λ i h. refl;
  in_frame_2 = λ i h. refl;
  in_frame_bg = λ i h. refl;
  sprites = λ h. h;
}

fetch_tile-IsDrawing : (p : Ppu) → IsDrawing p (fetch_tile p)
unfolding fetch_tile fetch_name_table fetch_attribute
fetch_tile-IsDrawing p = search (drawing_rules, same, draw_tile-IsDrawing) depth 8

-- The background pipeline leaves the beam, the memories and the buffers beyond the frame alone.
pub fetch_tile_pipeline-IsDrawing : (p : Ppu) → IsDrawing p (fetch_tile_pipeline p)
unfolding fetch_tile_pipeline
fetch_tile_pipeline-IsDrawing p =
    search (drawing_rules, fetch_tile-IsDrawing, with_addr, with_line) depth 10
  where
    with_line : (p : Ppu) (a : ℕ) → IsDrawing p (record p { ppu_addr = a; x_offset = 0 })
    with_line p a = record {
      clock = refl;
      cycle = refl;
      scanline = refl;
      frames = refl;
      vram = refl;
      oam = refl;
      in_frame_1 = λ i h. refl;
      in_frame_2 = λ i h. refl;
      in_frame_bg = λ i h. refl;
      sprites = λ h. h;
    }
