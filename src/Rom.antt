-- ===== src/Rom.antt =====
-- The bytes of a ROM, `shared_ptr<vector<uint8_t>>` of lib/inc/nes_mapper.h.
use neschan.Base.{ℕ, ◌+◌, ◌-◌, leb, if◌then◌else◌, Option, none, some, Bytes}

pub record Rom : Type 0 where
  pub size : ℕ
  pub byte : Bytes

-- `data() + off`, to read `n` bytes from. A read out of the vector is undefined: `none`.
unfoldable pub slice : Rom → ℕ → ℕ → Option Bytes
slice r off n = if leb (off + n) r.size then some (λ i. r.byte (off + i)) else none

-- `data() + size() - back`, likewise.
unfoldable pub slice_end : Rom → ℕ → ℕ → Option Bytes
unfolding slice
slice_end r back n = if leb back r.size then slice r (r.size - back) n else none
