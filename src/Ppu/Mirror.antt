-- ===== src/Ppu/Mirror.antt =====
-- The mirrors of the PPU's address space as arithmetic, and reads after writes (lib/inc/nes_ppu.h).
use neschan.Base.{
  ℕ, ◌+◌, ◌-◌, ◌*◌, ◌/◌, ◌%◌, ◌<◌, ◌≡◌, refl, ◌∙◌, false, arith, ◌==◌, ltb, leb, update,
  if◌then◌else◌, ◌&&◌, not, Bool,
}
use neschan.Base.Table.{all_below}
use neschan.Base.Bits.{equal_below₂}
use neschan.Ppu.State.{Ppu}
use neschan.Ppu.Vram.{redirect_addr, mirror_palette, mirror_name_table, read_byte, write_byte}

-- The name table of 1 KB that stands for one of the four, for the values of `nes_mapper_flags`:
-- lower bank, upper bank, vertical, horizontal.
abbrev pub name_table : ℕ → ℕ → ℕ
name_table flags n =
    if flags == 0 then 0 else if flags == 1 then 1 else if flags == 2 then n % 2 else n / 2 * 2

-- A palette entry: sixteen of the background, and sixteen of the sprites of which each fourth is
-- the background's.
abbrev pub palette_entry : ℕ → ℕ
palette_entry n = if leb 16 n && (n % 4 == 0) then n - 16 else n

-- The four name tables stand at 0x2000, and again at 0x3000 up to the palette.
abbrev pub table_of : ℕ → ℕ
table_of a = a / 0x400 % 4

-- The address that the hardware gives, by its mirrors.
abbrev pub hardware : ℕ → ℕ → ℕ
hardware flags a =
    if ltb a 0x2000
    then a
    else if ltb a 0x3f00
    then 0x2000 + name_table flags (table_of a) * 0x400 + a % 0x400
    else 0x3f00 + palette_entry (a % 32)

-- An address of the second copy of the name tables, in a table that the mode mirrors to another one.
abbrev pub is_unmirrored : ℕ → ℕ → Bool
is_unmirrored flags a =
    (leb 0x3000 a && ltb a 0x3f00) && not (name_table flags (table_of a) == table_of a)

-- The address that the code gives.
abbrev target : ℕ → ℕ → ℕ
target flags a = if is_unmirrored flags a then a - 0x1000 else hardware flags a

redirect_addr_eq : (flags a : ℕ) → flags < 4 → a < 0x4000 → redirect_addr flags a ≡ target flags a
redirect_addr_eq flags a hf ha =
    equal_below₂ 4 0x4000 redirect_addr target flags a
      (unfold all_below redirect_addr mirror_palette mirror_name_table in refl) hf ha

differs :
    (flags a : ℕ)
    → flags < 4
    → a < 0x4000
    → (target flags a == hardware flags a) ≡ not (is_unmirrored flags a)
differs flags a hf ha = ground arith

-- Below 0x4000 the masks give the address of the hardware, with pattern tables as they are, name tables
-- by the four mirroring modes, and 32 palette entries of which four are shared, except in the copy of
-- the name tables from 0x3000 to 0x3eff: there an address in a table that the mode mirrors to another
-- one is only moved down by 0x1000, which is never the address of the hardware. The mode is one of the
-- four.
pub redirect_addr-target :
    (flags a : ℕ)
    → flags < 4
    → a < 0x4000
    → (redirect_addr flags a ≡ (if is_unmirrored flags a then a - 0x1000 else hardware flags a))
      × ((redirect_addr flags a == hardware flags a) ≡ not (is_unmirrored flags a))
redirect_addr-target flags a hf ha =
    (redirect_addr_eq flags a hf ha, rw (redirect_addr_eq flags a hf ha) (differs flags a hf ha))

target-lt : (flags a : ℕ) → a < 0x4000 → hardware flags a < 0x4000
target-lt flags a h = ground arith

-- Addresses that the code mirrors as the hardware does.
module _ (p : Ppu) (a : ℕ) where
  mirrored_eq :
      p.mirroring_flags < 4
      → a < 0x4000
      → is_unmirrored p.mirroring_flags a ≡ false
      → redirect_addr p.mirroring_flags a ≡ hardware p.mirroring_flags a
  mirrored_eq hf ha e = redirect_addr_eq p.mirroring_flags a hf ha ∙ rw e refl

  read_byte_eq :
      p.mirroring_flags < 4
      → a < 0x4000
      → is_unmirrored p.mirroring_flags a ≡ false
      → read_byte p a ≡ p.vram (hardware p.mirroring_flags a)
  unfolding read_byte
  read_byte_eq hf ha e = rw (mirrored_eq hf ha e) (ground (arith, target-lt p.mirroring_flags a))

  write_byte_eq :
      (v : ℕ)
      → p.mirroring_flags < 4
      → a < 0x4000
      → is_unmirrored p.mirroring_flags a ≡ false
      → write_byte a v p ≡ record p { vram = update p.vram (hardware p.mirroring_flags a) v }
  unfolding write_byte
  write_byte_eq v hf ha e = rw (mirrored_eq hf ha e) (ground (arith, target-lt p.mirroring_flags a))

-- What is written at an address of the PPU is read back there and at each address that the hardware
-- mirrors to the same place, and reads at other addresses give what they gave before. Neither address
-- is in a name table from 0x3000 to 0x3eff that the mode mirrors to another one: those the code does
-- not mirror. Both addresses are below 0x4000 and the mirroring mode is one of the four.
pub read_byte-write_byte :
    (p : Ppu) (a b v : ℕ)
    → p.mirroring_flags < 4
    → a < 0x4000
    → b < 0x4000
    → is_unmirrored p.mirroring_flags a ≡ false
    → is_unmirrored p.mirroring_flags b ≡ false
    → read_byte (write_byte a v p) b
      ≡ (if hardware p.mirroring_flags a == hardware p.mirroring_flags b then v else read_byte p b)
read_byte-write_byte p a b v hf ha hb ea eb =
    rw (write_byte_eq p a v hf ha ea, read_byte_eq p b hf hb eb)
      (read_byte_eq (record p { vram = update p.vram (hardware p.mirroring_flags a) v }) b hf hb eb)
