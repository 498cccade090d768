-- ===== src/Base/Store.antt =====
-- Byte arrays as functions of the index, and `memcpy_s` of lib/inc/common.h on them.
use neschan.Base.Tests.{ltb, leb, ◌==◌, if◌then◌else◌}
use Prim.Native.Nat.{ℕ, ◌+◌, ◌-◌, ◌<◌}
use mathlib.Core.Bool.{◌&&◌}

abbrev pub Bytes : Type 0
Bytes = ℕ → ℕ

abbrev pub IsBytes : Bytes → Type 0
IsBytes f = (i : ℕ) → f i < 256

abbrev pub update {ℓ} : {A : Type ℓ} → (ℕ → A) → ℕ → A → ℕ → A
update f p v q = if p == q then v else f q

-- `memcpy`: `count` bytes of `src` stand in `dest` from `at` on.
abbrev pub copy : Bytes → ℕ → Bytes → ℕ → Bytes
copy dest at src count a = if leb at a && ltb a (at + count) then src (a - at) else dest a

-- It copies nothing (and returns an error, which no caller reads) if the destination is too small.
unfoldable pub memcpy_s : Bytes → ℕ → ℕ → Bytes → ℕ → Bytes
memcpy_s dest at dest_size src count = if ltb dest_size count then dest else copy dest at src count
