-- ===== src/Apu/Audio.antt =====
-- The circular buffer `nes_audio_device` (lib/inc/nes_apu.h). `none` is behaviour that C++ leaves
-- undefined: a copy that leaves the vector, or a remainder by its size when that is 0.
pub mod Queue
pub mod Valid
pub mod Read
pub mod Write
use neschan.Base.{
  ℕ, ◌+◌, ◌-◌, ◌%◌, ◌^◌, ◌==◌, ltb, leb, if◌then◌else◌, Bool, true, false, not, ◌&&◌, Option, none,
  some, Bytes, copy, memcpy_s, u64, sub64,
}
use neschan.Base.Chain.{◌>>=◌}

pub record Audio : Type 0 where
  pub buf_full : Bool
  pub write_offset : ℕ  -- size_t
  pub read_offset : ℕ  -- size_t
  pub size : ℕ  -- of the vector
  pub audio_buffer : Bytes

-- `count` bytes of the vector from `off` on.
unfoldable pub source : Audio → ℕ → ℕ → Option Bytes
source a off count = if leb (off + count) a.size then some (λ i. a.audio_buffer (off + i)) else none

-- `memcpy_s` into the vector.
unfoldable pub store : ℕ → ℕ → Bytes → ℕ → Audio → Option Audio
store at dest_size src count a =
    if leb (at + count) a.size
    then some (record a { audio_buffer = memcpy_s a.audio_buffer at dest_size src count })
    else if ltb dest_size count
    then some a
    else none

-- `x % _audio_buffer.size()`.
unfoldable pub wrapped : ℕ → Audio → Option ℕ
wrapped x a = if a.size == 0 then none else some (x % a.size)

-- `memset` of a destination to 0.
unfoldable pub silence : Bytes → ℕ → ℕ → Bytes
silence buf at count = copy buf at (λ _. 0) count

-- The branch `_write_offset > _read_offset` of `read_buffer`.
unfoldable pub read_ahead : Bytes → ℕ → Audio → Option (Bytes × Audio)
unfolding silence
read_ahead buf buf_size a =
    let remaining = a.write_offset - a.read_offset in
    let copy_size = if ltb buf_size remaining then buf_size else remaining in
    source a a.read_offset copy_size >>= λ src.
    wrapped (u64 (a.read_offset + copy_size)) a >>= λ off.
    let out = memcpy_s buf 0 buf_size src copy_size in
    some (
      if ltb remaining buf_size then silence out remaining (buf_size - remaining) else out,
      record a { read_offset = off },
    )

-- The second copy of the other branch, of `rest` bytes after the first `first`.
unfoldable pub read_front : Bytes → ℕ → ℕ → Audio → Option (Bytes × Audio)
unfolding silence
read_front buf first rest a =
    source a 0 (if ltb rest a.write_offset then rest else a.write_offset) >>= λ src.
    let out =
      memcpy_s buf first rest src (if ltb rest a.write_offset then rest else a.write_offset) in
    if ltb a.write_offset rest
    then some (
      silence out (first + a.write_offset) (rest - a.write_offset),
      record a { read_offset = a.write_offset },
    )
    else some (out, record a { read_offset = u64 (a.read_offset + rest) })

unfoldable pub read_around : Bytes → ℕ → Audio → Option (Bytes × Audio)
read_around buf buf_size a =
    let remaining = sub64 a.size a.read_offset in
    let first = if ltb buf_size remaining then buf_size else remaining in
    source a a.read_offset first >>= λ src.
    let out = memcpy_s buf 0 buf_size src first in
    if buf_size - first == 0
    then some (out, record a { read_offset = u64 (a.read_offset + first) })
    else read_front out first (buf_size - first) a

-- The destination afterwards, and the device.
unfoldable pub read_buffer : Bytes → ℕ → Audio → Option (Bytes × Audio)
unfolding silence
read_buffer buf buf_size a =
    if (a.write_offset == a.read_offset) && not a.buf_full
    then some (silence buf 0 buf_size, a)
    else if ltb a.read_offset a.write_offset
    then read_ahead buf buf_size (record a { buf_full = false })
    else read_around buf buf_size (record a { buf_full = false })

-- The end of a write, which compares the offsets.
unfoldable pub move_write : ℕ → Audio → Audio
move_write off a = record a {
  write_offset = off;
  buf_full = if off == a.read_offset then true else a.buf_full;
}

-- The write that goes on at the start of the vector.
unfoldable pub write_split : Bytes → ℕ → ℕ → Audio → Option Audio
write_split buf buf_size remaining a =
    let rest = buf_size - remaining in
    store a.write_offset remaining buf remaining a >>= λ b.
    if ltb a.read_offset rest
    then some b
    else store 0 rest (λ i. buf (remaining + i)) rest b >>= λ c.
        some (record c { write_offset = rest })

-- The write that fits before the end of the vector.
unfoldable pub write_straight : Bytes → ℕ → ℕ → Audio → Option Audio
unfolding move_write
write_straight buf buf_size remaining a = store a.write_offset remaining buf buf_size a >>= λ b.
    wrapped (u64 (a.write_offset + buf_size)) a >>= λ off. some (move_write off b)

unfoldable pub write_ahead : Bytes → ℕ → Audio → Option Audio
write_ahead buf buf_size a =
    let remaining = sub64 a.size a.write_offset in
    if leb buf_size remaining
    then write_straight buf buf_size remaining a
    else write_split buf buf_size remaining a

unfoldable pub write_behind : Bytes → ℕ → Audio → Option Audio
unfolding move_write
write_behind buf buf_size a =
    let remaining = a.read_offset - a.write_offset in
    if ltb remaining buf_size
    then some a
    else store a.write_offset remaining buf buf_size a >>= λ b.
        some (move_write (u64 (a.write_offset + buf_size)) b)

unfoldable pub write_buffer : Bytes → ℕ → Audio → Option Audio
write_buffer buf buf_size a =
    if a.buf_full
    then some a
    else if leb a.read_offset a.write_offset
    then write_ahead buf buf_size a
    else write_behind buf buf_size a
