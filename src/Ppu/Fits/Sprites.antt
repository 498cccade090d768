-- ===== src/Ppu/Fits/Sprites.antt =====
-- The sprite pipeline and the beam.
use neschan.Base.{
  ℕ, zero, suc, ◌≡◌, refl, ◌+◌, ◌-◌, ◌/◌, ◌%◌, ◌<◌, ◌≤◌, arith, if◌then◌else◌, Bool, true, false,
  bit_and, bit_or, ◌<<<◌, ◌&&◌, ◌||◌, ◌==◌, not, leb, u8, update, test_bits,
}
use neschan.Ppu.State.{Ppu, SpriteInfo}
use neschan.Ppu.Pattern.{get_sprite, get_palette_color, palette_bit01}
use neschan.Ppu.Timing.{move_beam, next_scanline, next_frame}
use neschan.Ppu.Sprites.{
  sprite_frame_addr, draw_sprite_column, draw_sprite_columns, fetch_sprite, clear_sprites, in_range,
  add_sprite, evaluate_sprite, fetch_sprite_pipeline,
}
use neschan.Ppu.Fits.{PpuFits, SpriteFits, PpuFits-if}
use neschan.Ppu.Fits.Pixels.{set_frame-PpuFits, get_palette_color-lt}

-- Flags are not looked at.
hit : (p : Ppu) → PpuFits p → PpuFits (record p { sprite_0_hit = true })
hit p f = record { ports = omega (arith, f.ports); pipes = omega (arith, f.pipes); bytes = f.bytes }

draw_sprite_column-PpuFits :
    (id : ℕ) (sprite : SpriteInfo) (b0 b1 i : ℕ) (p : Ppu)
    → PpuFits p
    → PpuFits (draw_sprite_column id sprite b0 b1 i p)
unfolding draw_sprite_column
draw_sprite_column-PpuFits id sprite b0 b1 i p f =
    let index = bit_or (bit_and sprite.attr 0x3 <<< 2) (palette_bit01 b0 b1 i) in
    let addr = sprite_frame_addr p sprite i in
    let is_sprite_0 = p.has_sprite_0 && (id == 0) in
    let behind = test_bits sprite.attr 0x20 in
    let overlap = (behind || is_sprite_0) && not (p.frame_buffer_bg addr == 0) in
    let q : Ppu = if overlap && is_sprite_0 then record p { sprite_0_hit = true } else p in
    let g : PpuFits q = PpuFits-if (overlap && is_sprite_0) _ p (hit p f) f in
    PpuFits-if (palette_bit01 b0 b1 i == 0) p _ f (
      PpuFits-if (leb 61440 addr) p _ f (
        PpuFits-if (overlap && behind) q _ g (
          set_frame-PpuFits addr (get_palette_color p false index) q
            (get_palette_color-lt p false index f.bytes.vram_bytes) g)))

draw_sprite_columns-PpuFits :
    (left id : ℕ) (sprite : SpriteInfo) (b0 b1 : ℕ) (p : Ppu)
    → PpuFits p
    → PpuFits (draw_sprite_columns left id sprite b0 b1 p)
unfolding draw_sprite_columns
draw_sprite_columns-PpuFits zero id sprite b0 b1 p f = f
draw_sprite_columns-PpuFits (suc left) id sprite b0 b1 p f =
    draw_sprite_columns-PpuFits left id sprite b0 b1 _
      (draw_sprite_column-PpuFits id sprite b0 b1 left p f)

fetch_sprite-PpuFits : (id : ℕ) (p : Ppu) → PpuFits p → PpuFits (fetch_sprite id p)
unfolding fetch_sprite
fetch_sprite-PpuFits id p f = draw_sprite_columns-PpuFits 8 id (p.sprite_buf id) _ _ p f

-- The buffer of sprites is replaced, and with it their number.
with_sprites :
    (p : Ppu) (buf : ℕ → SpriteInfo) (n : ℕ) (z o : Bool)
    → ((i : ℕ) → SpriteFits (buf i))
    → n ≤ 8
    → PpuFits p
    → PpuFits
        (record p { sprite_buf = buf; last_sprite_id = n; has_sprite_0 = z; sprite_overflow = o })
with_sprites p buf n z o h le f = record {
  ports = omega (arith, f.ports);
  pipes = omega (arith, f.pipes);
  bytes = record {
    vram_bytes = f.bytes.vram_bytes;
    oam_bytes = f.bytes.oam_bytes;
    pixel_bytes = f.bytes.pixel_bytes;
    frame_1_bytes = f.bytes.frame_1_bytes;
    frame_2_bytes = f.bytes.frame_2_bytes;
    bg_bits = f.bytes.bg_bits;
    sprites = h;
  };
}

clear_sprites-PpuFits : (p : Ppu) → PpuFits p → PpuFits (clear_sprites p)
unfolding clear_sprites
clear_sprites-PpuFits p f = with_sprites p _ 0 false false (λ i. omega arith) (omega arith) f

get_sprite-SpriteFits : (p : Ppu) (id : ℕ) → PpuFits p → SpriteFits (get_sprite p id)
unfolding get_sprite
get_sprite-SpriteFits p id f = record {
  pos_y = f.bytes.oam_bytes _;
  tile_index = f.bytes.oam_bytes _;
  attr = f.bytes.oam_bytes _;
  pos_x = f.bytes.oam_bytes _;
}

masked : (b : Bool) (p : Ppu) → PpuFits p → PpuFits (record p { mask_oam_read = b })
masked b p f = record {
  ports = omega (arith, f.ports);
  pipes = omega (arith, f.pipes);
  bytes = f.bytes;
}

-- One more sprite, or the overflow.
add_sprite-PpuFits : (id : ℕ) (p : Ppu) → PpuFits p → PpuFits (add_sprite id p)
unfolding add_sprite
add_sprite-PpuFits id p f = go (id == 0) (leb 8 p.last_sprite_id) (full p.last_sprite_id)
  where
    full : (n : ℕ) → leb 8 n ≡ false → n + 1 ≤ 8
    full n e = ground (arith, e)

    zero_seen : (z : Bool) → PpuFits (if z then record p { has_sprite_0 = true } else p)
    zero_seen z =
        PpuFits-if z _ p
          (with_sprites p p.sprite_buf p.last_sprite_id true p.sprite_overflow f.bytes.sprites
            (omega (arith, f.pipes)) f)
          f

    added : (i : ℕ) (b : Bool) → SpriteFits (if b then get_sprite p id else p.sprite_buf i)
    added i true = get_sprite-SpriteFits p id f
    added i false = f.bytes.sprites i

    go :
        (z b : Bool)
        → (b ≡ false → p.last_sprite_id + 1 ≤ 8)
        → PpuFits (
            let q = if z then record p { has_sprite_0 = true } else p in
            if b then record q { sprite_overflow = true } else record q {
              sprite_buf = update p.sprite_buf p.last_sprite_id (get_sprite p id);
              last_sprite_id = u8 (p.last_sprite_id + 1);
            })
    go z true le =
        let g = zero_seen z in
        record { ports = omega (arith, g.ports); pipes = omega (arith, g.pipes); bytes = g.bytes }
    go z false le =
        let g = zero_seen z in
        with_sprites _ _ _ _ _ (λ i. added i (p.last_sprite_id == i)) (omega (arith, le refl)) g

with_y : (y : ℕ) (p : Ppu) → y < 256 → PpuFits p → PpuFits (record p { sprite_pos_y = y })
with_y y p h f = record {
  ports = omega (arith, f.ports);
  pipes = omega (arith, f.pipes);
  bytes = f.bytes;
}

evaluate_sprite-PpuFits : (p : Ppu) → PpuFits p → PpuFits (evaluate_sprite p)
unfolding evaluate_sprite
evaluate_sprite-PpuFits p f =
    let id = u8 (p.scanline_cycle - 65) / 2 in
    let q : Ppu = record p { mask_oam_read = false } in
    let g : PpuFits q = masked false p f in
    PpuFits-if (leb 64 id) q _ g (
      PpuFits-if (p.scanline_cycle % 2 == 0) _ _
        (PpuFits-if (in_range q) _ q (add_sprite-PpuFits id q g) g)
        (with_y _ q (get_sprite-SpriteFits q id g).pos_y g))

pub fetch_sprite_pipeline-PpuFits : (p : Ppu) → PpuFits p → PpuFits (fetch_sprite_pipeline p)
unfolding fetch_sprite_pipeline
fetch_sprite_pipeline-PpuFits p f =
    search
      (PpuFits-if, masked, clear_sprites-PpuFits, evaluate_sprite-PpuFits, fetch_sprite-PpuFits)
      depth 10

first-PpuFits :
    (b : Bool) (r r' : Ppu × Bool) → PpuFits r.0 → PpuFits r'.0 → PpuFits (if b then r else r').0
first-PpuFits true r r' f g = f
first-PpuFits false r r' f g = g

-- The clocks, the place of the beam and the choice of the buffer.
timed :
    (clock cycle scanline frames : ℕ) (b : Bool) (p : Ppu)
    → frames < 0x100000000
    → PpuFits p
    → PpuFits (record p {
      master_cycle = clock;
      scanline_cycle = cycle;
      cur_scanline = scanline;
      frame_count = frames;
      on_buffer_1 = b;
    })
timed clock cycle scanline frames b p lt f = record {
  ports = omega (arith, f.ports);
  pipes = omega (arith, f.pipes);
  bytes = f.bytes;
}

-- The beam moves, and the buffers are swapped at the end of a frame.
pub move_beam-PpuFits : (n : ℕ) (p : Ppu) → PpuFits p → PpuFits (move_beam n p).0
unfolding move_beam next_scanline next_frame
move_beam-PpuFits n p f =
    first-PpuFits (leb 341 (p.scanline_cycle + n)) _ _
      (first-PpuFits (leb 262 (p.cur_scanline + 1)) _ _ (timed _ _ _ _ _ p (omega arith) f)
        (timed _ _ _ _ _ p (omega (arith, f.ports)) f))
      (timed _ _ _ _ _ p (omega (arith, f.ports)) f)
