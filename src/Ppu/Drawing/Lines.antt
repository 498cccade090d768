-- ===== src/Ppu/Drawing/Lines.antt =====
-- The sprites, and both pipelines of a visible line.
use neschan.Base.{ℕ, zero, suc, refl, arith, true}
use neschan.Ppu.State.{Ppu, SpriteInfo}
use neschan.Ppu.Pattern.{set_frame}
use neschan.Ppu.Tile.{fetch_tile_pipeline}
use neschan.Ppu.Sprites.{
  draw_sprite_column, draw_sprite_columns, fetch_sprite, clear_sprites, in_range, add_sprite,
  evaluate_sprite, fetch_sprite_pipeline,
}
use neschan.Ppu.Drawing.{
  IsDrawing, IsDrawing-refl, IsDrawing-then, drawing_rules, fetch_tile_pipeline-IsDrawing,
}

draw_sprite_column-IsDrawing :
    (id : ℕ) (sprite : SpriteInfo) (b0 b1 i : ℕ) (p : Ppu)
    → IsDrawing p (draw_sprite_column id sprite b0 b1 i p)
unfolding draw_sprite_column set_frame
draw_sprite_column-IsDrawing id sprite b0 b1 i p = record {
  clock = ground arith;
  cycle = ground arith;
  scanline = ground arith;
  frames = ground arith;
  vram = ground arith;
  oam = ground arith;
  in_frame_1 = λ i h. ground (arith, h);
  in_frame_2 = λ i h. ground (arith, h);
  in_frame_bg = λ i h. ground (arith, h);
  sprites = λ h. ground (arith, h);
}

draw_sprite_columns-IsDrawing :
    (left id : ℕ) (sprite : SpriteInfo) (b0 b1 : ℕ) (p : Ppu)
    → IsDrawing p (draw_sprite_columns left id sprite b0 b1 p)
unfolding draw_sprite_columns
draw_sprite_columns-IsDrawing zero id sprite b0 b1 p = IsDrawing-refl p
draw_sprite_columns-IsDrawing (suc left) id sprite b0 b1 p =
    IsDrawing-then _ _ _ (draw_sprite_column-IsDrawing id sprite b0 b1 left p)
      (draw_sprite_columns-IsDrawing left id sprite b0 b1 _)

clear_sprites-IsDrawing : (p : Ppu) → IsDrawing p (clear_sprites p)
unfolding clear_sprites
clear_sprites-IsDrawing p = record {
  clock = refl;
  cycle = refl;
  scanline = refl;
  frames = refl;
  vram = refl;
  oam = refl;
  in_frame_1 = λ i h. refl;
  in_frame_2 = λ i h. refl;
  in_frame_bg = λ i h. refl;
  sprites = λ h. omega arith;
}

evaluate_sprite-IsDrawing : (p : Ppu) → IsDrawing p (evaluate_sprite p)
unfolding evaluate_sprite in_range add_sprite
evaluate_sprite-IsDrawing p = record {
  clock = ground arith;
  cycle = ground arith;
  scanline = ground arith;
  frames = ground arith;
  vram = ground arith;
  oam = ground arith;
  in_frame_1 = λ i h. ground (arith, h);
  in_frame_2 = λ i h. ground (arith, h);
  in_frame_bg = λ i h. ground (arith, h);
  sprites = λ h. ground (arith, h);
}

masked : (p : Ppu) → IsDrawing p (record p { mask_oam_read = true })
masked p = record {
  clock = refl;
  cycle = refl;
  scanline = refl;
  frames = refl;
  vram = refl;
  oam = refl;
  in_frame_1 = λ i h. refl;
  in_frame_2 = λ i h. refl;
  in_frame_bg = λ i h. refl;
  sprites = λ h. h;
}

fetch_sprite_pipeline-IsDrawing : (p : Ppu) → IsDrawing p (fetch_sprite_pipeline p)
unfolding fetch_sprite_pipeline fetch_sprite
fetch_sprite_pipeline-IsDrawing p =
    search
      (
        drawing_rules, masked, clear_sprites-IsDrawing, evaluate_sprite-IsDrawing,
        draw_sprite_columns-IsDrawing,
      )
      depth 10

-- Both pipelines, in the order of a visible line, leave the beam, the clock, the video memory and the
-- sprite memory alone, write no byte of a buffer beyond the 61440 of the frame, and keep at most eight
-- sprites for a line.
pub pipelines-IsDrawing : (p : Ppu) → IsDrawing p (fetch_sprite_pipeline (fetch_tile_pipeline p))
pipelines-IsDrawing p =
    IsDrawing-then p (fetch_tile_pipeline p) (fetch_sprite_pipeline (fetch_tile_pipeline p))
      (fetch_tile_pipeline-IsDrawing p) (fetch_sprite_pipeline-IsDrawing (fetch_tile_pipeline p))
