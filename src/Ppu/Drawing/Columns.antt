-- ===== src/Ppu/Drawing/Columns.antt =====
-- The loop over the columns of a tile in `fetch_tile` of lib/src/nes_ppu.cpp, as a row of pixels.
use neschan.Base.{
  ℕ, zero, suc, ◌+◌, ◌-◌, ◌*◌, ◌<◌, ◌≤◌, ◌≡◌, inl, inr, refl, ap, ◌∙◌, arith, ◌==◌, leb,
  if◌then◌else◌, u8, u16, true, false, Bool-cases, bit_or, Bytes, update,
}
use neschan.Ppu.State.{Ppu}
use neschan.Ppu.Pattern.{get_palette_color, palette_bit01, set_frame, frame_size}
use neschan.Ppu.Vram.{read_byte}
use neschan.Ppu.Tile.{draw_column, draw_columns}

-- The buffer that is drawn to.
abbrev pub canvas : Ppu → Bytes
canvas p = if p.on_buffer_1 then p.frame_buffer_1 else p.frame_buffer_2

-- The colour that the code computes for column `i` of the tile.
abbrev pub column_color : Ppu → ℕ → ℕ → ℕ
column_color p b1 i =
    get_palette_color p true (bit_or p.tile_palette_bit32 (palette_bit01 p.bitplane0 b1 i))

-- One pixel, as one change of the record.
abbrev plotted : ℕ → ℕ → ℕ → Ppu → Ppu
plotted addr b1 i p = record p {
  pixel_cycle = update p.pixel_cycle i (column_color p b1 i);
  x_offset = u8 (p.x_offset + 1);
  frame_buffer_1 =
      if p.on_buffer_1
      then update p.frame_buffer_1 addr (column_color p b1 i)
      else p.frame_buffer_1;
  frame_buffer_2 =
      if p.on_buffer_1
      then p.frame_buffer_2
      else update p.frame_buffer_2 addr (column_color p b1 i);
  frame_buffer_bg = update p.frame_buffer_bg addr (palette_bit01 p.bitplane0 b1 i);
}

draw_column_eq :
    (scanline b1 i : ℕ) (p : Ppu)
    → scanline < 240
    → p.x_offset < 256
    → draw_column scanline b1 i p ≡ plotted (scanline * 256 + p.x_offset) b1 i p
unfolding draw_column set_frame
draw_column_eq scanline b1 i p hs hx = elim (Bool-cases p.on_buffer_1) [
  | inl e ↦ rw (inside, fits, e) refl
  | inr e ↦ rw (inside, fits, e) refl
]
  where
    inside : u16 (scanline * 256 + p.x_offset) ≡ scanline * 256 + p.x_offset
    inside = omega arith

    fits : leb frame_size (scanline * 256 + p.x_offset) ≡ false
    fits = ground arith

canvas-plotted :
    (addr b1 i a : ℕ) (p : Ppu)
    → canvas (plotted addr b1 i p) a ≡ (if addr == a then column_color p b1 i else canvas p a)
canvas-plotted addr b1 i a p = elim (Bool-cases p.on_buffer_1) [
  | inl e ↦ rw e refl
  | inr e ↦ rw e refl
]

-- The row of pixels from `p` to `q`: `left` columns, the first of them `start`.
pub record IsRow (scanline b1 left start : ℕ) (p q : Ppu) : Type 0 where
  pub pixels :
      (k : ℕ)
      → k < left
      → canvas q (scanline * 256 + p.x_offset + k) ≡ column_color p b1 (start - k)
  pub opaque :
      (k : ℕ)
      → k < left
      → q.frame_buffer_bg (scanline * 256 + p.x_offset + k)
        ≡ palette_bit01 p.bitplane0 b1 (start - k)
  pub before :
      (a : ℕ)
      → a < scanline * 256 + p.x_offset
      → (canvas q a ≡ canvas p a) × (q.frame_buffer_bg a ≡ p.frame_buffer_bg a)
  pub behind :
      (a : ℕ)
      → scanline * 256 + p.x_offset + left ≤ a
      → (canvas q a ≡ canvas p a) × (q.frame_buffer_bg a ≡ p.frame_buffer_bg a)
  pub x_offset : q.x_offset ≡ u8 (p.x_offset + left)

same_color :
    (addr b1 i j : ℕ) (p : Ppu) → column_color (plotted addr b1 i p) b1 j ≡ column_color p b1 j
unfolding get_palette_color read_byte
same_color addr b1 i j p = refl

-- What one pixel leaves of both buffers: itself, and all others as they were.
plotted_at :
    (addr b1 i : ℕ) (p : Ppu)
    → (canvas (plotted addr b1 i p) addr ≡ column_color p b1 i)
      × (update p.frame_buffer_bg addr (palette_bit01 p.bitplane0 b1 i) addr
          ≡ palette_bit01 p.bitplane0 b1 i)
plotted_at addr b1 i p = (canvas-plotted addr b1 i addr p ∙ ground arith, ground arith)

plotted_elsewhere :
    (addr b1 i a : ℕ) (p : Ppu)
    → (addr == a) ≡ false
    → (canvas (plotted addr b1 i p) a ≡ canvas p a)
      × (update p.frame_buffer_bg addr (palette_bit01 p.bitplane0 b1 i) a ≡ p.frame_buffer_bg a)
plotted_elsewhere addr b1 i a p e = (canvas-plotted addr b1 i a p ∙ rw e refl, rw e refl)

-- The last pixel of a row may be the last one of the line.
last_one :
    (scanline b1 i : ℕ) (p : Ppu)
    → IsRow scanline b1 1 i p (plotted (scanline * 256 + p.x_offset) b1 i p)
last_one scanline b1 i p = record {
  pixels = λ k lt.
      ap (canvas (plotted (scanline * 256 + p.x_offset) b1 i p)) (omega arith)
      ∙ (plotted_at (scanline * 256 + p.x_offset) b1 i p).0
      ∙ ap (column_color p b1) (omega arith);
  opaque = λ k lt.
      ap (update p.frame_buffer_bg (scanline * 256 + p.x_offset) (palette_bit01 p.bitplane0 b1 i))
        (omega arith)
      ∙ (plotted_at (scanline * 256 + p.x_offset) b1 i p).1
      ∙ ap (palette_bit01 p.bitplane0 b1) (omega arith);
  before = λ a lt. plotted_elsewhere (scanline * 256 + p.x_offset) b1 i a p (ground arith);
  behind = λ a le. plotted_elsewhere (scanline * 256 + p.x_offset) b1 i a p (ground arith);
  x_offset = refl;
}

-- A first pixel, and a row behind it.
module _ (scanline b1 left i : ℕ) (p q : Ppu) where
  one_more :
      p.x_offset + 1 < 256
      → p.x_offset + suc left ≤ 256
      → IsRow scanline b1 left (i - 1) (plotted (scanline * 256 + p.x_offset) b1 i p) q
      → IsRow scanline b1 (suc left) i p q
  one_more h le r = record {
    pixels = pixel;
    opaque = bits;
    before = λ a lt. then_old a (r.before a (omega (arith, next))) (ground arith);
    behind = λ a lt. then_old a (r.behind a (omega (arith, next))) (ground arith);
    x_offset = r.x_offset ∙ omega arith;
  }
    where
      base : ℕ
      base = scanline * 256 + p.x_offset

      next : u8 (p.x_offset + 1) ≡ p.x_offset + 1
      next = omega arith

      then_old :
          (a : ℕ)
          → (canvas q a ≡ canvas (plotted (scanline * 256 + p.x_offset) b1 i p) a)
            × (q.frame_buffer_bg a
                ≡ update p.frame_buffer_bg
                    (scanline * 256 + p.x_offset)
                    (palette_bit01 p.bitplane0 b1 i)
                    a)
          → (scanline * 256 + p.x_offset == a) ≡ false
          → (canvas q a ≡ canvas p a) × (q.frame_buffer_bg a ≡ p.frame_buffer_bg a)
      then_old a old ne =
          let e = plotted_elsewhere (scanline * 256 + p.x_offset) b1 i a p ne in
          (old.0 ∙ e.0, old.1 ∙ e.1)

      pixel :
          (k : ℕ)
          → k < suc left
          → canvas q (scanline * 256 + p.x_offset + k) ≡ column_color p b1 (i - k)
      pixel zero lt =
          ap (canvas q) (omega arith)
          ∙ (r.before (scanline * 256 + p.x_offset) (omega (arith, next))).0
          ∙ (plotted_at (scanline * 256 + p.x_offset) b1 i p).0
          ∙ ap (column_color p b1) (omega arith)
      pixel (suc k) lt =
          ap (canvas q) (omega (arith, next))
          ∙ r.pixels k (omega arith)
          ∙ same_color (scanline * 256 + p.x_offset) b1 i (i - 1 - k) p
          ∙ ap (column_color p b1) (omega arith)

      bits :
          (k : ℕ)
          → k < suc left
          → q.frame_buffer_bg (scanline * 256 + p.x_offset + k)
            ≡ palette_bit01 p.bitplane0 b1 (i - k)
      bits zero lt =
          ap q.frame_buffer_bg (omega arith)
          ∙ (r.before (scanline * 256 + p.x_offset) (omega (arith, next))).1
          ∙ (plotted_at (scanline * 256 + p.x_offset) b1 i p).1
          ∙ ap (palette_bit01 p.bitplane0 b1) (omega arith)
      bits (suc k) lt =
          ap q.frame_buffer_bg (omega (arith, next))
          ∙ r.opaque k (omega arith)
          ∙ ap (palette_bit01 p.bitplane0 b1) (omega arith)

-- The loop over the columns draws a row.
pub draw_columns-IsRow :
    (left i scanline b1 : ℕ) (p : Ppu)
    → scanline < 240
    → p.x_offset + suc left ≤ 256
    → IsRow scanline b1 (suc left) i p (draw_columns (suc left) i scanline b1 p)
unfolding draw_columns
draw_columns-IsRow zero i scanline b1 p hs le =
    rw (draw_column_eq scanline b1 i p hs (omega arith)) (last_one scanline b1 i p)
draw_columns-IsRow (suc left) i scanline b1 p hs le =
    rw (draw_column_eq scanline b1 i p hs (omega arith)) (
      one_more scanline b1 (suc left) i p _ (omega arith) le (
        draw_columns-IsRow left (i - 1) scanline b1 (plotted (scanline * 256 + p.x_offset) b1 i p)
          hs (omega arith)))
