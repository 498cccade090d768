-- ===== src/Apu/Audio/Valid.antt =====
-- The offsets of the circular buffer, and the queue that it stands for.
use neschan.Base.{
  ℕ, ◌+◌, ◌-◌, ◌<◌, ◌≤◌, ◌≡◌, arith, ltb, leb, ◌==◌, if◌then◌else◌, true, Bytes, copy, inl, inr,
  ==_iff, Bool-cases, memcpy_s, some, sub64,
}
use native.Mathlib.Nat.{mod-eq_of_lt, mod_self}
use neschan.Apu.Audio.{Audio, source, store, wrapped}
use neschan.Apu.Audio.Queue.{Queue}

pub record IsValid (a : Audio) : Type 0 where
  pub nonempty : 0 < a.size
  pub small : a.size < 0x8000000000000000
  pub read_in : a.read_offset ≤ a.size
  pub write_in : a.write_offset ≤ a.size
  -- The write offset reaches the end only with the read offset.
  pub write_end : a.write_offset ≡ a.size → a.read_offset ≡ a.size
  pub full : a.buf_full ≡ true → a.write_offset ≡ a.read_offset

-- The place of byte `i` of the queue.
abbrev pub index : Audio → ℕ → ℕ
index a i = if ltb (a.read_offset + i) a.size then a.read_offset + i else a.read_offset + i - a.size

abbrev pub contents : Audio → Queue
contents a = record {
  count =
      if a.buf_full
      then a.size
      else if leb a.read_offset a.write_offset
      then a.write_offset - a.read_offset
      else a.size - a.read_offset + a.write_offset;
  item = λ i. a.audio_buffer (index a i);
}

pub wrapped_eq :
    (x : ℕ) (a : Audio)
    → 0 < a.size
    → x ≤ a.size
    → wrapped x a ≡ some (if x == a.size then 0 else x)
unfolding wrapped
wrapped_eq x a pos le = elim (Bool-cases (x == a.size)) [
  | inl e ↦ rw ((==_iff x a.size).0 e, mod_self a.size) (ground arith)
  | inr e ↦ rw (mod-eq_of_lt {n = x} {m = a.size} (ground (arith, e)), e) (ground arith)
]

pub source_eq :
    (a : Audio) (off count : ℕ)
    → off + count ≤ a.size
    → source a off count ≡ some (λ i. a.audio_buffer (off + i))
unfolding source
source_eq a off count h = ground arith

pub memcpy_s_eq :
    (dest : Bytes) (at dest_size : ℕ) (src : Bytes) (count : ℕ)
    → count ≤ dest_size
    → memcpy_s dest at dest_size src count ≡ copy dest at src count
unfolding memcpy_s
memcpy_s_eq dest at dest_size src count h = ground arith

pub store_eq :
    (at dest_size : ℕ) (src : Bytes) (count : ℕ) (a : Audio)
    → at + count ≤ a.size
    → count ≤ dest_size
    → store at dest_size src count a
      ≡ some (record a { audio_buffer = copy a.audio_buffer at src count })
unfolding store memcpy_s
store_eq at dest_size src count a h le = ground arith

pub sub64_eq : (x y : ℕ) → y ≤ x → x < 0x8000000000000000 → sub64 x y ≡ x - y
sub64_eq x y le lt = omega arith
