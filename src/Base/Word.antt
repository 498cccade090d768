-- ===== src/Base/Word.antt =====
-- The fixed widths of the program: `uint8_t`, `uint16_t`, `uint32_t` and the casts and shifts on
-- them. A value is a plain number, and a cast keeps the low bits.
use Prim.Native.Nat.{ℕ, ◌+◌, ◌-◌, ◌*◌, ◌/◌, ◌%◌, ◌^◌, bit_and}
use mathlib.Core.Bool.{Bool, not}
use neschan.Base.Tests.{ltb, ◌==◌, if◌then◌else◌}

abbrev pub u8 : ℕ → ℕ
u8 n = n % 256

abbrev pub u16 : ℕ → ℕ
u16 n = n % 65536

abbrev pub u32 : ℕ → ℕ
u32 n = n % 4294967296

-- `size_t`.
abbrev pub u64 : ℕ → ℕ
u64 n = n % 18446744073709551616

-- `x - y` of two such numbers.
abbrev pub sub64 : ℕ → ℕ → ℕ
sub64 x y = u64 (x + 18446744073709551616 - y)

infixl 75 ◌<<<◌ ◌>>>◌
abbrev pub ◌<<<◌ : ℕ → ℕ → ℕ
x <<< k = x * 2 ^ k

abbrev pub ◌>>>◌ : ℕ → ℕ → ℕ
x >>> k = x / 2 ^ k

-- `~x` cut to a byte; `x` is a byte.
abbrev pub not8 : ℕ → ℕ
not8 x = 255 - x

-- `x - y` cut to a byte; both are bytes.
abbrev pub sub8 : ℕ → ℕ → ℕ
sub8 x y = u8 (x + 256 - y)

-- An `int8_t` added to an address: the byte `v` stands for `v` or for `v - 256`.
abbrev pub sign_extend : ℕ → ℕ
sign_extend v = if ltb v 128 then v else v + 0xff00

-- A number read as a `bool`.
abbrev pub to_bool : ℕ → Bool
to_bool n = not (n == 0)

-- `x & mask` read as a `bool`.
abbrev pub test_bits : ℕ → ℕ → Bool
test_bits x mask = to_bool (bit_and x mask)
