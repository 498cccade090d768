-- ===== src/Memory/Map.antt =====
-- The memory map as arithmetic on addresses: mirrors and I/O registers.
use neschan.Base.{
  ℕ, ◌+◌, ◌%◌, ◌<◌, ◌≡◌, refl, arith, Bool, true, false, if◌then◌else◌, ltb, leb, ◌&&◌, ◌||◌,
}
use neschan.Base.Table.{all_below, all_below_sound}
use neschan.Base.Bits.{equal_below}
use neschan.Memory.Ram.{redirect_addr, is_io_reg}

-- Where an address leads to.
abbrev pub target : ℕ → ℕ
target a = if ltb a 0x2000 then a % 0x800 else if ltb a 0x4000 then 0x2000 + a % 8 else a

-- The masks of `redirect_addr` lead the first 8 KB to 2 KB of memory, the next 8 KB to the eight
-- registers of the PPU, and leave the other addresses as they are. The address has 16 bits.
pub redirect_addr_eq : (a : ℕ) → a < 0x10000 → redirect_addr a ≡ target a
redirect_addr_eq a h =
    equal_below 0x10000 redirect_addr target a (unfold all_below redirect_addr in refl) h

abbrev pub in_io : ℕ → Bool
in_io a = (leb 0x2000 a && ltb a 0x2008) || (leb 0x4000 a && ltb a 0x4020)

abbrev same : Bool → Bool → Bool
same true b = b
same false true = false
same false false = true

same_sound : (a b : Bool) → same a b ≡ true → a ≡ b
same_sound true true h = refl
same_sound true false h = ground arith
same_sound false true h = ground arith
same_sound false false h = refl

-- The masks of `is_io_reg` pick the eight registers of the PPU and 0x4000 to 0x401f among the
-- addresses of 16 bits.
pub is_io_reg_eq : (a : ℕ) → a < 0x10000 → is_io_reg a ≡ in_io a
is_io_reg_eq a h = same_sound (is_io_reg a) (in_io a) (
    all_below_sound 0x10000 (λ a. same (is_io_reg a) (in_io a)) a
      (unfold all_below is_io_reg in refl) h)
