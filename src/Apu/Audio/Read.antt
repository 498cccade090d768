-- ===== src/Apu/Audio/Read.antt =====
-- The branches of `read_buffer`.
pub mod Taken
pub mod Refine
use neschan.Base.{
  ℕ, ◌+◌, ◌-◌, ◌<◌, ◌≤◌, ◌≡◌, ◌⊎◌, inl, inr, refl, ap, arith, ltb, leb, ◌==◌, ◌&&◌, not,
  if◌then◌else◌, Bool, true, false, Bool-cases, Bytes, copy, memcpy_s, Option, some, u64, sub64,
  ◌∙◌,
}
use neschan.Base.Chain.{◌>>=◌}
use neschan.Apu.Audio.{
  Audio, source, wrapped, silence, read_ahead, read_front, read_around, read_buffer,
}
use neschan.Apu.Audio.Queue.{Queue, IsSame, heard, dropped}
use neschan.Apu.Audio.Valid.{IsValid, contents, index, wrapped_eq, source_eq, memcpy_s_eq, sub64_eq}

-- The smaller one, as the source writes it.
abbrev pub part : ℕ → ℕ → ℕ
part n m = if ltb n m then n else m

part_left : (n m : ℕ) → n ≤ m → part n m ≡ n
part_left n m h = ground arith

part_right : (n m : ℕ) → m ≤ n → part n m ≡ m
part_right n m h = ground arith

-- The destination after a copy of `count` bytes and silence up to `n`.
abbrev pub filled : Bytes → ℕ → ℕ → Bytes → Bytes
filled buf n m src =
    let out = copy buf 0 src (part n m) in if ltb m n then copy out m (λ _. 0) (n - m) else out

pub filled_lem :
    (buf src : Bytes) (n m i : ℕ) → i < n → filled buf n m src i ≡ (if ltb i m then src i else 0)
filled_lem buf src n m i h = ground arith

pub read_ahead_eq :
    (buf : Bytes) (n : ℕ) (a : Audio)
    → IsValid a
    → a.read_offset < a.write_offset
    → read_ahead buf n a
      ≡ some (
        filled buf n (a.write_offset - a.read_offset) (λ i. a.audio_buffer (a.read_offset + i)),
        record a { read_offset = a.read_offset + part n (a.write_offset - a.read_offset) },
      )
unfolding read_ahead silence
read_ahead_eq buf n a v lt = rw (
  source_eq a a.read_offset (part n (a.write_offset - a.read_offset)) (ground (arith, v.write_in)),
  wrapped_eq (u64 (a.read_offset + part n (a.write_offset - a.read_offset))) a v.nonempty
      (ground (arith, v.write_in, v.small)),
  memcpy_s_eq buf 0 n (λ i. a.audio_buffer (a.read_offset + i))
      (part n (a.write_offset - a.read_offset)) (ground arith),
  off,
)
  where
    sum : ℕ
    sum = a.read_offset + part n (a.write_offset - a.read_offset)

    off : (if u64 sum == a.size then 0 else u64 sum) ≡ sum
    off = ground (arith, v.write_in, v.small, v.write_end)

-- The read that stays before the end of the vector, and the one that goes on at its start.
pub read_around-short :
    (buf : Bytes) (n : ℕ) (a : Audio)
    → IsValid a
    → n ≤ a.size - a.read_offset
    → read_around buf n a
      ≡ some (
        copy buf 0 (λ i. a.audio_buffer (a.read_offset + i)) n,
        record a { read_offset = a.read_offset + n },
      )
unfolding read_around
read_around-short buf n a v le =
    rw
      (
        sub64_eq a.size a.read_offset v.read_in v.small,
        part_left n (a.size - a.read_offset) le,
        source_eq a a.read_offset n (omega (arith, v.read_in)),
        memcpy_s_eq buf 0 n (λ i. a.audio_buffer (a.read_offset + i)) n (omega arith),
      )
      (ground (arith, v.read_in, v.small))

pub read_around-long :
    (buf : Bytes) (n : ℕ) (a : Audio)
    → IsValid a
    → a.size - a.read_offset < n
    → (let first = a.size - a.read_offset in
        read_around buf n a
        ≡ read_front
            (copy buf 0 (λ i. a.audio_buffer (a.read_offset + i)) first)
            first
            (n - first)
            a)
unfolding read_around
read_around-long buf n a v lt =
    rw
      (
        sub64_eq a.size a.read_offset v.read_in v.small,
        part_right n (a.size - a.read_offset) (omega arith),
        source_eq a a.read_offset (a.size - a.read_offset) (omega (arith, v.read_in)),
        memcpy_s_eq buf 0 n (λ i. a.audio_buffer (a.read_offset + i)) (a.size - a.read_offset)
            (omega arith),
      )
      (ground arith)

-- The second copy, with silence after it.
abbrev pub filled_on : Bytes → ℕ → ℕ → ℕ → Bytes → Bytes
filled_on buf first rest m src =
    let out = copy buf first src (part rest m) in
    if ltb m rest then copy out (first + m) (λ _. 0) (rest - m) else out

pub read_front_eq :
    (buf : Bytes) (first rest : ℕ) (a : Audio)
    → IsValid a
    → read_front buf first rest a
      ≡ some (
        filled_on buf first rest a.write_offset (λ i. a.audio_buffer (0 + i)),
        record a {
          read_offset =
              if ltb a.write_offset rest then a.write_offset else u64 (a.read_offset + rest);
        },
      )
unfolding read_front silence
read_front_eq buf first rest a v =
    rw
      (
        source_eq a 0 (part rest a.write_offset) (ground (arith, v.write_in)),
        memcpy_s_eq buf first rest (λ i. a.audio_buffer (0 + i)) (part rest a.write_offset)
            (ground arith),
      )
      (ground arith)

pub filled_on_lem :
    (buf src : Bytes) (first rest m i : ℕ)
    → i < first + rest
    → filled_on buf first rest m src i
      ≡ (if ltb i first then buf i else if ltb (i - first) m then src (i - first) else 0)
filled_on_lem buf src first rest m i h = ground arith

-- What the two branches return.
abbrev pub ahead : Bytes → ℕ → Audio → Bytes × Audio
ahead buf n a = (
  filled buf n (a.write_offset - a.read_offset) (λ i. a.audio_buffer (a.read_offset + i)),
  record a {
    read_offset = a.read_offset + part n (a.write_offset - a.read_offset);
    buf_full = false;
  },
)

abbrev pub short : Bytes → ℕ → Audio → Bytes × Audio
short buf n a = (
  copy buf 0 (λ i. a.audio_buffer (a.read_offset + i)) n,
  record a { read_offset = a.read_offset + n; buf_full = false },
)

abbrev pub long : Bytes → ℕ → Audio → Bytes × Audio
long buf n a =
    let first = a.size - a.read_offset in
    (
      filled_on (copy buf 0 (λ i. a.audio_buffer (a.read_offset + i)) first) first (n - first)
          a.write_offset (λ i. a.audio_buffer (0 + i)),
      record a {
        read_offset =
            if ltb a.write_offset (n - first)
            then a.write_offset
            else u64 (a.read_offset + (n - first));
        buf_full = false;
      },
    )
