-- ===== src/Apu/Audio/Write.antt =====
-- The branches of `write_buffer` against the queue.
pub mod Refine
use neschan.Base.{
  ℕ, ◌+◌, ◌-◌, ◌<◌, ◌≤◌, ◌≡◌, inl, inr, refl, ap, arith, ltb, leb, ◌==◌, ==_iff, if◌then◌else◌,
  Bool, true, false, Bool-cases, Bytes, copy, Option, some, u64, sub64,
}
use neschan.Base.Chain.{◌>>=◌}
use neschan.Apu.Audio.{
  Audio, source, store, wrapped, move_write, write_split, write_straight, write_behind,
}
use neschan.Apu.Audio.Queue.{Queue, IsSame, added}
use neschan.Apu.Audio.Valid.{IsValid, contents, wrapped_eq, store_eq, sub64_eq}

-- The device after a copy into the vector and the move of the write offset.
abbrev pub moved : Bytes → ℕ → ℕ → Audio → Audio
moved src n off a = record a {
  audio_buffer = copy a.audio_buffer a.write_offset src n;
  write_offset = off;
  buf_full = if off == a.read_offset then true else a.buf_full;
}

abbrev pub end_of : ℕ → Audio → ℕ
end_of n a = if a.write_offset + n == a.size then 0 else a.write_offset + n

pub write_straight_eq :
    (src : Bytes) (n : ℕ) (a : Audio)
    → IsValid a
    → a.write_offset + n ≤ a.size
    → write_straight src n (a.size - a.write_offset) a ≡ some (moved src n (end_of n a) a)
unfolding write_straight move_write
write_straight_eq src n a v le =
    rw
      (
        store_eq a.write_offset (a.size - a.write_offset) src n a le (omega arith),
        wrapped_eq (u64 (a.write_offset + n)) a v.nonempty (ground (arith, v.small)),
        small,
      )
      refl
  where
    small : u64 (a.write_offset + n) ≡ a.write_offset + n
    small = ground (arith, v.small)

pub write_behind_eq :
    (src : Bytes) (n : ℕ) (a : Audio)
    → IsValid a
    → a.write_offset + n ≤ a.read_offset
    → write_behind src n a ≡ some (moved src n (a.write_offset + n) a)
unfolding write_behind move_write
write_behind_eq src n a v le =
    rw
      (
        keep,
        store_eq a.write_offset (a.read_offset - a.write_offset) src n a (omega (arith, v.read_in))
            (omega arith),
        small,
      )
      refl
  where
    keep : ltb (a.read_offset - a.write_offset) n ≡ false
    keep = ground arith

    small : u64 (a.write_offset + n) ≡ a.write_offset + n
    small = ground (arith, v.small, v.read_in)

-- The write that goes on at the start of the vector, when it fits.
abbrev pub split : Bytes → ℕ → ℕ → Audio → Audio
split src first rest a = record a {
  audio_buffer = copy (copy a.audio_buffer a.write_offset src first) 0 (λ i. src (first + i)) rest;
  write_offset = rest;
}

-- The device when it does not fit: the first part is written beyond the queue.
abbrev pub spilt : Bytes → ℕ → Audio → Audio
spilt src first a = record a { audio_buffer = copy a.audio_buffer a.write_offset src first }

pub write_split_eq :
    (src : Bytes) (n : ℕ) (a : Audio)
    → IsValid a
    → (let first = a.size - a.write_offset in
        write_split src n first a
        ≡ some (
            if ltb a.read_offset (n - first)
            then spilt src first a
            else split src first (n - first) a))
unfolding write_split
write_split_eq src n a v = elim (Bool-cases (ltb a.read_offset (n - (a.size - a.write_offset)))) [
  | inl e ↦ rw (first_eq, e) refl
  | inr e ↦
      rw
        (
          first_eq,
          e,
          store_eq 0 (n - (a.size - a.write_offset)) (λ i. src (a.size - a.write_offset + i))
              (n - (a.size - a.write_offset)) (spilt src (a.size - a.write_offset) a)
              (ground (arith, e, v.read_in)) (omega arith),
        )
        refl
]
  where
    first_eq :
        store a.write_offset (a.size - a.write_offset) src (a.size - a.write_offset) a
        ≡ some (spilt src (a.size - a.write_offset) a)
    first_eq =
        store_eq a.write_offset (a.size - a.write_offset) src (a.size - a.write_offset) a
          (omega (arith, v.write_in)) (omega arith)
