-- ===== src/Apu/Audio/Read/Refine.antt =====
-- `read_buffer` takes the first bytes off the queue.
use neschan.Base.{
  ℕ, ◌-◌, ◌<◌, ◌≡◌, inl, inr, arith, ltb, leb, ◌==◌, ◌&&◌, ◌||◌, not, if◌then◌else◌, Bool, true,
  false, Bool-cases, Bytes, copy, some, ◌∙◌,
}
use neschan.Apu.Audio.{Audio, silence, read_around, read_buffer}
use neschan.Apu.Audio.Queue.{heard}
use neschan.Apu.Audio.Valid.{IsValid, contents}
use neschan.Apu.Audio.Read.{
  ahead, short, long, read_ahead_eq, read_around-short, read_around-long, read_front_eq,
}
use neschan.Apu.Audio.Read.Taken.{
  ahead-heard, short-heard, long-heard, IsLeft, ahead-IsLeft, short-IsLeft, long-IsLeft,
}

abbrev is_empty : Audio → Bool
is_empty a = (a.write_offset == a.read_offset) && not a.buf_full

-- What `read_buffer` returns.
abbrev served : Bytes → ℕ → Audio → Bytes × Audio
served buf n a =
    if is_empty a
    then (copy buf 0 (λ _. 0) n, a)
    else if ltb a.read_offset a.write_offset
    then ahead buf n a
    else if leb n (a.size - a.read_offset)
    then short buf n a
    else long buf n a

not_full : (a : Audio) → IsValid a → IsValid (record a { buf_full = false })
not_full a v = record {
  nonempty = v.nonempty;
  small = v.small;
  read_in = v.read_in;
  write_in = v.write_in;
  write_end = v.write_end;
  full = λ e. grind (arith, e);
}

read_around_eq :
    (buf : Bytes) (n : ℕ) (a : Audio)
    → IsValid a
    → read_around buf n (record a { buf_full = false })
      ≡ some (if leb n (a.size - a.read_offset) then short buf n a else long buf n a)
read_around_eq buf n a v = elim (Bool-cases (leb n (a.size - a.read_offset))) [
  | inl e ↦
      rw e
        (read_around-short buf n (record a { buf_full = false }) (not_full a v) (ground (arith, e)))
  | inr e ↦ rw e (
      read_around-long buf n (record a { buf_full = false }) (not_full a v) (ground (arith, e))
      ∙ read_front_eq _ _ _ (record a { buf_full = false }) (not_full a v))
]

read_buffer_eq :
    (buf : Bytes) (n : ℕ) (a : Audio) → IsValid a → read_buffer buf n a ≡ some (served buf n a)
unfolding read_buffer silence
read_buffer_eq buf n a v = elim (Bool-cases (is_empty a)) [
  | inl e ↦ rw (e, read_buffer)
  | inr e ↦ elim (Bool-cases (ltb a.read_offset a.write_offset)) [
    | inl k ↦
        rw (e, k)
          (read_ahead_eq buf n (record a { buf_full = false }) (not_full a v) (ground (arith, k)))
    | inr k ↦ rw (e, k) (read_around_eq buf n a v)
  ]
]

served-heard :
    (buf : Bytes) (n : ℕ) (a : Audio) (i : ℕ)
    → IsValid a
    → i < n
    → (served buf n a).0 i ≡ heard (contents a) i
served-heard buf n a i v h = elim (Bool-cases (is_empty a)) [
  | inl e ↦ rw e (ground (arith, e))
  | inr e ↦ elim (Bool-cases (ltb a.read_offset a.write_offset)) [
    | inl k ↦ rw (e, k) (ahead-heard buf n a i v (ground (arith, k)) h)
    | inr k ↦ elim (Bool-cases (leb n (a.size - a.read_offset))) [
      | inl l ↦
          rw (e, k, l)
            (short-heard buf n a i v (ground (arith, k)) (λ q. ground (arith, e, q))
              (ground (arith, l)) h)
      | inr l ↦
          rw (e, k, l)
            (long-heard buf n a i v (ground (arith, k)) (λ q. ground (arith, e, q))
              (ground (arith, l)) h)
    ]
  ]
]

-- Reading a valid buffer is defined, and gives the first bytes of its queue in order, with silence
-- after the last.
pub read_buffer-heard :
    (buf : Bytes) (n : ℕ) (a : Audio)
    → IsValid a
    → (out : Bytes) × (a' : Audio) × (read_buffer buf n a ≡ some (out, a'))
      × ((i : ℕ) → i < n → out i ≡ heard (contents a) i)
read_buffer-heard buf n a v = (
  (served buf n a).0,
  (served buf n a).1,
  read_buffer_eq buf n a v,
  λ i h. served-heard buf n a i v h,
)

-- A read that does not go on at the start of the vector and leave bytes there.
abbrev pub stays : ℕ → Audio → Bool
stays n a =
    ltb a.read_offset a.write_offset || (leb n (a.size - a.read_offset) || ltb (contents a).count n)

empty-IsLeft : (n : ℕ) (a : Audio) → IsValid a → is_empty a ≡ true → IsLeft n a a
empty-IsLeft n a v e = record {
  valid = v;
  same = record { count = ground (arith, e); item = λ i h. absurd (ground (arith, e, h)) };
}

served-IsLeft :
    (buf : Bytes) (n : ℕ) (a : Audio)
    → IsValid a
    → 0 < n
    → stays n a ≡ true
    → IsLeft n a (served buf n a).1
served-IsLeft buf n a v pos s = elim (Bool-cases (is_empty a)) [
  | inl e ↦ rw e (empty-IsLeft n a v e)
  | inr e ↦ elim (Bool-cases (ltb a.read_offset a.write_offset)) [
    | inl k ↦ rw (e, k) (ahead-IsLeft buf n a v (ground (arith, k)))
    | inr k ↦ elim (Bool-cases (leb n (a.size - a.read_offset))) [
      | inl l ↦
          rw (e, k, l)
            (short-IsLeft buf n a v (ground (arith, k)) (λ q. ground (arith, e, q)) pos
              (ground (arith, l)))
      | inr l ↦
          rw (e, k, l)
            (long-IsLeft buf n a v (ground (arith, k)) (ground (arith, e, k, l, s, v.full)))
    ]
  ]
]

-- A read of at least one byte that does not go on at the start of the vector and leave bytes there
-- takes the bytes it returns off the queue of a valid buffer, and the buffer stays valid.
pub read_buffer-IsLeft :
    (buf : Bytes) (n : ℕ) (a : Audio)
    → IsValid a
    → 0 < n
    → stays n a ≡ true
    → (out : Bytes) × (a' : Audio) × (read_buffer buf n a ≡ some (out, a')) × IsLeft n a a'
read_buffer-IsLeft buf n a v pos s = (
  (served buf n a).0,
  (served buf n a).1,
  read_buffer_eq buf n a v,
  served-IsLeft buf n a v pos s,
)
