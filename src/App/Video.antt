-- ===== src/App/Video.antt =====
-- The colours, and the copy of the frame into the texture, of src/neschan.cpp.
pub mod Pixels
use neschan.Base.{
  ℕ, zero, suc, ◌+◌, bit_and, bit_or, ◌<<<◌, Bytes, update, Option, none, some, List, [], ◌∷◌, ◌++◌,
}
use neschan.Base.Chain.{◌>>=◌}
use neschan.Ppu.State.{ppu_screen_x, ppu_screen_y}

abbrev pub make_argb : ℕ → ℕ → ℕ → ℕ
make_argb r g b = bit_or (bit_or (r <<< 16) (g <<< 8)) b

abbrev palette_0 : List ℕ
palette_0 =
    make_argb 84 84 84
    ∷ make_argb 0 30 116
    ∷ make_argb 8 16 144
    ∷ make_argb 48 0 136
    ∷ make_argb 68 0 100
    ∷ make_argb 92 0 48
    ∷ make_argb 84 4 0
    ∷ make_argb 60 24 0
    ∷ make_argb 32 42 0
    ∷ make_argb 8 58 0
    ∷ make_argb 0 64 0
    ∷ make_argb 0 60 0
    ∷ make_argb 0 50 60
    ∷ make_argb 0 0 0
    ∷ make_argb 0 0 0
    ∷ make_argb 0 0 0
    ∷ []

abbrev palette_1 : List ℕ
palette_1 =
    make_argb 152 150 152
    ∷ make_argb 8 76 196
    ∷ make_argb 48 50 236
    ∷ make_argb 92 30 228
    ∷ make_argb 136 20 176
    ∷ make_argb 160 20 100
    ∷ make_argb 152 34 32
    ∷ make_argb 120 60 0
    ∷ make_argb 84 90 0
    ∷ make_argb 40 114 0
    ∷ make_argb 8 124 0
    ∷ make_argb 0 118 40
    ∷ make_argb 0 102 120
    ∷ make_argb 0 0 0
    ∷ make_argb 0 0 0
    ∷ make_argb 0 0 0
    ∷ []

abbrev palette_2 : List ℕ
palette_2 =
    make_argb 236 238 236
    ∷ make_argb 76 154 236
    ∷ make_argb 120 124 236
    ∷ make_argb 176 98 236
    ∷ make_argb 228 84 236
    ∷ make_argb 236 88 180
    ∷ make_argb 236 106 100
    ∷ make_argb 212 136 32
    ∷ make_argb 160 170 0
    ∷ make_argb 116 196 0
    ∷ make_argb 76 208 32
    ∷ make_argb 56 204 108
    ∷ make_argb 56 180 204
    ∷ make_argb 60 60 60
    ∷ make_argb 0 0 0
    ∷ make_argb 0 0 0
    ∷ []

abbrev palette_3 : List ℕ
palette_3 =
    make_argb 236 238 236
    ∷ make_argb 168 204 236
    ∷ make_argb 188 188 236
    ∷ make_argb 212 178 236
    ∷ make_argb 236 174 236
    ∷ make_argb 236 174 212
    ∷ make_argb 236 180 176
    ∷ make_argb 228 196 144
    ∷ make_argb 204 210 120
    ∷ make_argb 180 222 120
    ∷ make_argb 168 226 144
    ∷ make_argb 152 226 180
    ∷ make_argb 160 214 228
    ∷ make_argb 160 162 160
    ∷ make_argb 0 0 0
    ∷ make_argb 0 0 0
    ∷ []

-- The four rows of the table.
unfoldable pub palette : List ℕ
palette = palette_0 ++ (palette_1 ++ (palette_2 ++ palette_3))

-- An element of an array: a read out of it is undefined.
unfoldable pub nth : List ℕ → ℕ → Option ℕ
nth [] k = none
nth (x ∷ xs) zero = some x
nth (x ∷ xs) (suc k) = nth xs k

-- The loop over `x`, with the pixels of the row that are left. Both pointers are at `at`.
unfoldable pub copy_row : ℕ → ℕ → Bytes → Bytes → Option Bytes
copy_row zero at frame pixels = some pixels
copy_row (suc left) at frame pixels = nth palette (bit_and (frame at) 0xff) >>= λ colour.
    copy_row left (at + 1) frame (update pixels at colour)

-- The loop over `y`.
unfoldable pub copy_rows : ℕ → ℕ → Bytes → Bytes → Option Bytes
unfolding copy_row
copy_rows zero at frame pixels = some pixels
copy_rows (suc left) at frame pixels =
    copy_row ppu_screen_x at frame pixels >>= λ more. copy_rows left (at + ppu_screen_x) frame more

unfoldable pub copy_frame : Bytes → Bytes → Option Bytes
unfolding copy_rows
copy_frame frame pixels = copy_rows ppu_screen_y 0 frame pixels
