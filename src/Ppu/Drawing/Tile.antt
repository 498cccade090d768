-- ===== src/Ppu/Drawing/Tile.antt =====
-- The row of a tile that `fetch_tile` of lib/src/nes_ppu.cpp draws, against the two bit planes of its
-- pattern, the fine scroll included.
use neschan.Base.{
  ℕ, zero, suc, bit_and, ◌<<<◌, ◌>>>◌, ◌+◌, ◌-◌, ◌*◌, ◌/◌, ◌<◌, ◌≤◌, ◌≡◌, ◌⊎◌, inl, inr, refl, ap,
  ◌∙◌, arith, ◌==◌, if◌then◌else◌, true, false, bit_or, u8,
}
use neschan.Base.Table.{all_below}
use neschan.Base.Bits.{bit_at, equal_below₂}
use neschan.Ppu.State.{Ppu}
use neschan.Ppu.Pattern.{get_palette_color, palette_bit01, read_pattern_table_column}
use neschan.Ppu.Tile.{
  render_cycle, render_scanline, draw_columns, skip_tile, start_bit, end_bit, draw_tile,
}
use neschan.Ppu.Drawing.Columns.{canvas, IsRow, draw_columns-IsRow}

-- Bit `i` of each of the two planes of a pattern.
abbrev pub plane_bits : ℕ → ℕ → ℕ → ℕ
plane_bits b0 b1 i = bit_at b0 i + 2 * bit_at b1 i

-- The tile that is drawn, the upper plane of its row, and where its pixels go.
abbrev pub drawn_tile : Ppu → ℕ
drawn_tile p = (render_cycle p - 6) / 8

abbrev pub upper_plane : ℕ → Ppu → ℕ
upper_plane row p = read_pattern_table_column p false p.tile_index 1 row

abbrev pub first_pixel : Ppu → ℕ
first_pixel p = render_scanline p * 256 + p.x_offset

-- The columns that are seen of a tile, by the fine scroll: the first tile lacks its first ones, and
-- a 33rd tile fills the end of the line up.
abbrev pub columns : ℕ → ℕ → ℕ
columns fine tile = if tile == 0 then 8 - fine else if tile == 32 then fine else 8

abbrev pub first_column : ℕ → ℕ → ℕ
first_column fine tile = if tile == 0 then 7 - fine else 7

-- The row from `p` to `q`: `n` pixels from `at` on, of which pixel `k` has the bits `bits k`.
pub record IsDrawn (at n : ℕ) (bits : ℕ → ℕ) (p q : Ppu) : Type 0 where
  pub colors :
      (k : ℕ)
      → k < n
      → canvas q (at + k) ≡ get_palette_color p true (bit_or p.tile_palette_bit32 (bits k))
  pub opaque : (k : ℕ) → k < n → q.frame_buffer_bg (at + k) ≡ bits k
  pub others :
      (a : ℕ)
      → (a < at) ⊎ (at + n ≤ a)
      → (canvas q a ≡ canvas p a) × (q.frame_buffer_bg a ≡ p.frame_buffer_bg a)
  pub x_offset : q.x_offset ≡ u8 (p.x_offset + n)

one_bit : (b i : ℕ) → b < 256 → i < 8 → bit_and b (1 <<< i) >>> i ≡ bit_at b i
one_bit b i hb hi =
    equal_below₂ 256 8 (λ b i. bit_and b (1 <<< i) >>> i) bit_at b i (unfold all_below in refl) hb
      hi

two_bits : (x y : ℕ) → x < 2 → y < 2 → bit_or x (y <<< 1) ≡ x + 2 * y
two_bits x y hx hy =
    equal_below₂ 2 2 (λ x y. bit_or x (y <<< 1)) (λ x y. x + 2 * y) x y (unfold all_below in refl)
      hx hy

palette_bit01_eq :
    (b0 b1 i : ℕ) → b0 < 256 → b1 < 256 → i < 8 → palette_bit01 b0 b1 i ≡ plane_bits b0 b1 i
unfolding palette_bit01
palette_bit01_eq b0 b1 i h0 h1 hi =
    rw (one_bit b0 i h0 hi, one_bit b1 i h1 hi)
      (two_bits (bit_at b0 i) (bit_at b1 i) (omega arith) (omega arith))

first_lt : (fine tile : ℕ) → first_column fine tile < 8
first_lt fine tile = ground arith

-- The bits at which the loop starts and ends, for a tile that starts inside of the line.
start_bit_eq : (fine tile : ℕ) → fine < 8 → start_bit fine tile ≡ first_column fine tile
unfolding start_bit
start_bit_eq fine tile h = ground arith

rounds_eq :
    (fine tile : ℕ)
    → fine < 8
    → tile * 8 < 256 + fine
    → first_column fine tile + 1 - end_bit fine tile ≡ columns fine tile
unfolding end_bit
rounds_eq fine tile h le = ground arith

some_columns : (fine tile : ℕ) → fine < 8 → tile * 8 < 256 + fine → 0 < columns fine tile
some_columns fine tile h le = ground arith

drawn : (fine tile : ℕ) → fine < 8 → tile * 8 < 256 + fine → skip_tile fine tile ≡ false
unfolding skip_tile
drawn fine tile h le = ground arith

-- A row that the loop has drawn, by the bits of the planes.
module _ (scanline b1 n start : ℕ) (p q : Ppu) where
  row-IsDrawn :
      p.bitplane0 < 256
      → b1 < 256
      → start < 8
      → IsRow scanline b1 n start p q
      → IsDrawn (scanline * 256 + p.x_offset) n (λ k. plane_bits p.bitplane0 b1 (start - k)) p q
  row-IsDrawn h0 h1 hs r = record {
    colors = λ k lt.
        r.pixels k lt
        ∙ ap (λ v. get_palette_color p true (bit_or p.tile_palette_bit32 v))
            (palette_bit01_eq p.bitplane0 b1 (start - k) h0 h1 (omega arith));
    opaque =
        λ k lt. r.opaque k lt ∙ palette_bit01_eq p.bitplane0 b1 (start - k) h0 h1 (omega arith);
    others = λ a at. elim at [ inl lt ↦ r.before a lt | inr le ↦ r.behind a le ];
    x_offset = r.x_offset;
  }

-- What is drawn does not depend on the address of the next tile.
at_next_tile :
    (at n v : ℕ) (bits : ℕ → ℕ) (p q : Ppu)
    → IsDrawn at n bits p q
    → IsDrawn at n bits p (record q { ppu_addr = v })
at_next_tile at n v bits p q d = record {
  colors = d.colors;
  opaque = d.opaque;
  others = d.others;
  x_offset = d.x_offset;
}

draw_columns-IsRow_nonempty :
    (n start scanline b1 : ℕ) (p : Ppu)
    → 0 < n
    → scanline < 240
    → p.x_offset + n ≤ 256
    → IsRow scanline b1 n start p (draw_columns n start scanline b1 p)
draw_columns-IsRow_nonempty zero start scanline b1 p lt hs le = absurd (omega arith)
draw_columns-IsRow_nonempty (suc n) start scanline b1 p lt hs le =
    draw_columns-IsRow n start scanline b1 p hs le

-- A tile whose first column lies inside of the line is drawn to the buffer that is not shown, as far as
-- the fine scroll lets it be seen: each of its pixels has the palette colour of its bits in the two
-- planes and of the attribute of the tile, its bits are kept for the test against sprites, no other
-- pixel changes, and the next tile goes behind it. The scan line is a visible one, the tile fits the
-- rest of it, and the planes and the fine scroll are in their ranges.
pub draw_tile-IsDrawn :
    (row : ℕ) (p : Ppu)
    → p.fine_x_scroll < 8
    → drawn_tile p * 8 < 256 + p.fine_x_scroll
    → render_scanline p < 240
    → p.x_offset + columns p.fine_x_scroll (drawn_tile p) ≤ 256
    → p.bitplane0 < 256
    → upper_plane row p < 256
    → IsDrawn
        (first_pixel p)
        (columns p.fine_x_scroll (drawn_tile p))
        (λ k.
          plane_bits p.bitplane0
            (upper_plane row p)
            (first_column p.fine_x_scroll (drawn_tile p) - k))
        p
        (draw_tile row p)
unfolding draw_tile
draw_tile-IsDrawn row p hf ht hs hx h0 h1 =
    let fine = p.fine_x_scroll in
    let tile = drawn_tile p in
    let n = columns fine tile in
    let start = first_column fine tile in
    let q = draw_columns n start (render_scanline p) (upper_plane row p) p in
    rw (drawn fine tile hf ht, start_bit_eq fine tile hf, rounds_eq fine tile hf ht)
      (at_next_tile (first_pixel p) n _ _ p q (
        row-IsDrawn (render_scanline p) (upper_plane row p) n start p q h0 h1 (first_lt fine tile) (
          draw_columns-IsRow_nonempty n start (render_scanline p) (upper_plane row p) p
            (some_columns fine tile hf ht) hs hx)))
