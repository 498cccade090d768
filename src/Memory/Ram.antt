-- ===== src/Memory/Ram.antt =====
-- The array `_ram` of `nes_memory`, and the copies that do not look at the I/O registers.
use neschan.Base.{
  ℕ, ◌+◌, ◌-◌, bit_and, ◌==◌, leb, if◌then◌else◌, Bool, true, false, Option, none, some, Bytes,
  memcpy_s,
}

abbrev pub ram_size : ℕ
ram_size = 0x10000

unfoldable pub is_io_reg : ℕ → Bool
is_io_reg addr =
    if bit_and addr 0xfff8 == 0x2000
    then true
    else if bit_and addr 0xffe0 == 0x4000
    then true
    else false

unfoldable pub redirect_addr : ℕ → ℕ
redirect_addr addr =
    if bit_and addr 0xe000 == 0
    then bit_and addr 0x7ff
    else if bit_and addr 0xe000 == 0x2000
    then bit_and addr 0x2007
    else addr

-- `none` is the failed assertion.
unfoldable pub set_bytes : ℕ → Bytes → ℕ → Bytes → Option Bytes
set_bytes addr src size ram =
    let a = redirect_addr addr in
    if leb (size + addr) ram_size then some (memcpy_s ram a (ram_size - a) src size) else none

-- `size` bytes from `src_addr` on, into `dest` from `at` on, where `dest_size` bytes fit.
unfoldable pub get_bytes : Bytes → ℕ → ℕ → ℕ → ℕ → Bytes → Option Bytes
get_bytes dest at dest_size src_addr size ram =
    let a = redirect_addr src_addr in
    if leb (src_addr + size) ram_size
    then some (memcpy_s dest at dest_size (λ i. ram (a + i)) size)
    else none
