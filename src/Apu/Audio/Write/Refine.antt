-- ===== src/Apu/Audio/Write/Refine.antt =====
-- `write_buffer` adds to the queue.
use neschan.Base.{
  ℕ, ◌+◌, ◌-◌, ◌<◌, ◌≤◌, ◌≡◌, inl, inr, refl, arith, ltb, leb, ◌==◌, ◌&&◌, Bool, true, false,
  Bool-cases, Bytes, Option, some,
}
use neschan.Apu.Audio.{Audio, write_ahead, write_behind, write_buffer}
use neschan.Apu.Audio.Queue.{IsSame, added}
use neschan.Apu.Audio.Valid.{IsValid, contents, sub64_eq}
use neschan.Apu.Audio.Write.{
  moved, end_of, write_straight_eq, write_behind_eq, split, spilt, write_split_eq,
}

-- What a write leaves.
pub record IsAdded (src : Bytes) (n : ℕ) (a a' : Audio) : Type 0 where
  pub valid : IsValid a'
  pub same : IsSame (contents a') (added a.size src n (contents a))

straight-IsAdded :
    (src : Bytes) (n : ℕ) (a : Audio)
    → IsValid a
    → a.buf_full ≡ false
    → 0 < n
    → a.read_offset ≤ a.write_offset
    → a.write_offset + n ≤ a.size
    → IsAdded src n a (moved src n (end_of n a) a)
straight-IsAdded src n a v e pos le fit = record {
  valid = record {
    nonempty = v.nonempty;
    small = v.small;
    read_in = v.read_in;
    write_in = ground arith;
    write_end = λ q. absurd (ground (arith, q, v.nonempty));
    full = λ q. ground (arith, q);
  };
  same = record { count = ground (arith, v.nonempty); item = λ i h. ground (arith, h) };
}

behind-IsAdded :
    (src : Bytes) (n : ℕ) (a : Audio)
    → IsValid a
    → a.buf_full ≡ false
    → a.write_offset < a.read_offset
    → a.write_offset + n ≤ a.read_offset
    → IsAdded src n a (moved src n (a.write_offset + n) a)
behind-IsAdded src n a v e lt fit = record {
  valid = record {
    nonempty = v.nonempty;
    small = v.small;
    read_in = v.read_in;
    write_in = omega (arith, v.read_in);
    write_end = λ q. omega (arith, q, v.read_in);
    full = λ q. ground (arith, q);
  };
  same = record { count = ground (arith, v.read_in); item = λ i h. ground (arith, h, v.read_in) };
}

-- The write goes on at the start of the vector and fills it to the last byte.
abbrev pub wraps_full : ℕ → Audio → Bool
wraps_full n a =
    leb a.read_offset a.write_offset
    && (ltb (a.size - a.write_offset) n && (n - (a.size - a.write_offset) == a.read_offset))

split-IsAdded :
    (src : Bytes) (n : ℕ) (a : Audio)
    → IsValid a
    → a.buf_full ≡ false
    → a.read_offset ≤ a.write_offset
    → a.size - a.write_offset < n
    → n - (a.size - a.write_offset) < a.read_offset
    → IsAdded src n a (split src (a.size - a.write_offset) (n - (a.size - a.write_offset)) a)
split-IsAdded src n a v e le l lt = record {
  valid = record {
    nonempty = v.nonempty;
    small = v.small;
    read_in = v.read_in;
    write_in = omega (arith, v.read_in);
    write_end = λ q. absurd (omega (arith, q, v.read_in));
    full = λ q. ground (arith, q);
  };
  same = record {
    count = ground (arith, v.read_in, v.write_in);
    item = λ i h. ground (arith, h, v.read_in, v.write_in);
  };
}

spilt-IsAdded :
    (src : Bytes) (n : ℕ) (a : Audio)
    → IsValid a
    → a.buf_full ≡ false
    → a.read_offset ≤ a.write_offset
    → a.read_offset < n - (a.size - a.write_offset)
    → IsAdded src n a (spilt src (a.size - a.write_offset) a)
spilt-IsAdded src n a v e le lt = record {
  valid = record {
    nonempty = v.nonempty;
    small = v.small;
    read_in = v.read_in;
    write_in = v.write_in;
    write_end = v.write_end;
    full = v.full;
  };
  same = record {
    count = ground (arith, v.read_in, v.write_in);
    item = λ i h. ground (arith, h, v.read_in, v.write_in);
  };
}

kept-IsAdded :
    (src : Bytes) (n : ℕ) (a : Audio)
    → IsValid a
    → a.size < (contents a).count + n
    → IsAdded src n a a
kept-IsAdded src n a v lt = record {
  valid = v;
  same = record { count = ground (arith, lt); item = λ i h. ground (arith, lt, h) };
}

abbrev Result : Bytes → ℕ → Audio → Option Audio → Type 0
Result src n a r = (a' : Audio) × (r ≡ some a') × IsAdded src n a a'

ahead_split :
    (src : Bytes) (n : ℕ) (a : Audio)
    → IsValid a
    → a.buf_full ≡ false
    → a.read_offset ≤ a.write_offset
    → a.size - a.write_offset < n
    → wraps_full n a ≡ false
    → Result src n a (write_ahead src n a)
unfolding write_ahead
ahead_split src n a v e le l w =
    elim (Bool-cases (ltb a.read_offset (n - (a.size - a.write_offset)))) [
      | inl k ↦
          rw (sub64_eq a.size a.write_offset v.write_in v.small, over, write_split_eq src n a v, k)
            (_, refl, spilt-IsAdded src n a v e le (ground (arith, k)))
      | inr k ↦
          rw (sub64_eq a.size a.write_offset v.write_in v.small, over, write_split_eq src n a v, k)
            (_, refl, split-IsAdded src n a v e le l (ground (arith, k, w)))
    ]
  where
    over : leb n (a.size - a.write_offset) ≡ false
    over = ground (arith, l)

ahead_straight :
    (src : Bytes) (n : ℕ) (a : Audio)
    → IsValid a
    → a.buf_full ≡ false
    → 0 < n
    → a.read_offset ≤ a.write_offset
    → n ≤ a.size - a.write_offset
    → Result src n a (write_ahead src n a)
unfolding write_ahead
ahead_straight src n a v e pos le fit =
    rw
      (
        sub64_eq a.size a.write_offset v.write_in v.small,
        within,
        write_straight_eq src n a v (omega (arith, v.write_in)),
      )
      (_, refl, straight-IsAdded src n a v e pos le (omega (arith, v.write_in)))
  where
    within : leb n (a.size - a.write_offset) ≡ true
    within = ground (arith, fit)

behind :
    (src : Bytes) (n : ℕ) (a : Audio)
    → IsValid a
    → a.buf_full ≡ false
    → a.write_offset < a.read_offset
    → Result src n a (write_behind src n a)
unfolding write_behind
behind src n a v e lt = elim (Bool-cases (ltb (a.read_offset - a.write_offset) n)) [
  | inl k ↦ rw k (_, refl, kept-IsAdded src n a v (ground (arith, k, v.read_in)))
  | inr k ↦ (
    _,
    write_behind_eq src n a v (ground (arith, k)),
    behind-IsAdded src n a v e lt (ground (arith, k)),
  )
]

-- A write of at least one byte to a valid buffer is defined and keeps the buffer valid. All of the
-- bytes are added behind those of the queue when they fit, and the queue stays when they do not,
-- unless the write goes on at the start of the vector and fills it to the last byte.
pub write_buffer-IsAdded :
    (src : Bytes) (n : ℕ) (a : Audio)
    → IsValid a
    → 0 < n
    → wraps_full n a ≡ false
    → (a' : Audio) × (write_buffer src n a ≡ some a') × IsAdded src n a a'
unfolding write_buffer
write_buffer-IsAdded src n a v pos w = elim (Bool-cases a.buf_full) [
  | inl e ↦ simp e (a, refl, kept-IsAdded src n a v (ground (arith, e, pos)))
  | inr e ↦ elim (Bool-cases (leb a.read_offset a.write_offset)) [
    | inl k ↦ elim (Bool-cases (leb n (a.size - a.write_offset))) [
      | inl l ↦ simp (e, k) (ahead_straight src n a v e pos (ground (arith, k)) (ground (arith, l)))
      | inr l ↦ simp (e, k) (ahead_split src n a v e (ground (arith, k)) (ground (arith, l)) w)
    ]
    | inr k ↦ simp (e, k) (behind src n a v e (ground (arith, k)))
  ]
]
