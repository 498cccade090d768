-- ===== src/Apu/Audio/Read/Taken.antt =====
-- What the branches of `read_buffer` return and leave, against the queue.
use neschan.Base.{ℕ, ◌+◌, ◌-◌, ◌<◌, ◌≤◌, ◌≡◌, ap, arith, true, Bytes, copy, ◌∙◌}
use neschan.Apu.Audio.{Audio}
use neschan.Apu.Audio.Queue.{IsSame, heard, dropped}
use neschan.Apu.Audio.Valid.{IsValid, contents}
use neschan.Apu.Audio.Read.{filled_lem, filled_on_lem, ahead, short, long}

pub ahead-heard :
    (buf : Bytes) (n : ℕ) (a : Audio) (i : ℕ)
    → IsValid a
    → a.read_offset < a.write_offset
    → i < n
    → (ahead buf n a).0 i ≡ heard (contents a) i
ahead-heard buf n a i v lt h =
    filled_lem buf (λ i. a.audio_buffer (a.read_offset + i)) n (a.write_offset - a.read_offset) i h
    ∙ ground (arith, v.write_in, v.full)

pub short-heard :
    (buf : Bytes) (n : ℕ) (a : Audio) (i : ℕ)
    → IsValid a
    → a.write_offset ≤ a.read_offset
    → (a.write_offset ≡ a.read_offset → a.buf_full ≡ true)
    → n ≤ a.size - a.read_offset
    → i < n
    → (short buf n a).0 i ≡ heard (contents a) i
short-heard buf n a i v le f l h = ground (arith, v.write_in, v.read_in)

pub long-heard :
    (buf : Bytes) (n : ℕ) (a : Audio) (i : ℕ)
    → IsValid a
    → a.write_offset ≤ a.read_offset
    → (a.write_offset ≡ a.read_offset → a.buf_full ≡ true)
    → a.size - a.read_offset < n
    → i < n
    → (long buf n a).0 i ≡ heard (contents a) i
long-heard buf n a i v le f l h =
    filled_on_lem (copy buf 0 (λ i. a.audio_buffer (a.read_offset + i)) (a.size - a.read_offset))
      (λ i. a.audio_buffer (0 + i)) (a.size - a.read_offset) (n - (a.size - a.read_offset))
      a.write_offset i (omega arith)
    ∙ ground (arith, v.write_in, v.read_in)

-- What is left in the queue.
pub record IsLeft (n : ℕ) (a a' : Audio) : Type 0 where
  pub valid : IsValid a'
  pub same : IsSame (contents a') (dropped n (contents a))

pub ahead-IsLeft :
    (buf : Bytes) (n : ℕ) (a : Audio)
    → IsValid a
    → a.read_offset < a.write_offset
    → IsLeft n a (ahead buf n a).1
ahead-IsLeft buf n a v lt = record {
  valid = record {
    nonempty = v.nonempty;
    small = v.small;
    read_in = ground (arith, v.write_in);
    write_in = v.write_in;
    write_end = λ e. absurd (omega (arith, v.write_end e));
    full = λ e. grind (arith, e);
  };
  same = record {
    count = ground (arith, v.full);
    item = λ i h. ap a.audio_buffer (ground (arith, h, v.write_in));
  };
}

pub short-IsLeft :
    (buf : Bytes) (n : ℕ) (a : Audio)
    → IsValid a
    → a.write_offset ≤ a.read_offset
    → (a.write_offset ≡ a.read_offset → a.buf_full ≡ true)
    → 0 < n
    → n ≤ a.size - a.read_offset
    → IsLeft n a (short buf n a).1
short-IsLeft buf n a v le f pos l = record {
  valid = record {
    nonempty = v.nonempty;
    small = v.small;
    read_in = omega (arith, v.read_in);
    write_in = v.write_in;
    write_end = λ e. omega (arith, v.write_end e);
    full = λ e. grind (arith, e);
  };
  same = record {
    count = ground (arith, v.full, f);
    item = λ i h. ap a.audio_buffer (ground (arith, h, v.write_in, v.full));
  };
}

pub long-IsLeft :
    (buf : Bytes) (n : ℕ) (a : Audio)
    → IsValid a
    → a.write_offset ≤ a.read_offset
    → a.size - a.read_offset + a.write_offset < n
    → IsLeft n a (long buf n a).1
long-IsLeft buf n a v le l = record {
  valid = record {
    nonempty = v.nonempty;
    small = v.small;
    read_in = ground (arith, v.write_in);
    write_in = v.write_in;
    write_end = λ e. ground (arith, e);
    full = λ e. grind (arith, e);
  };
  same = record {
    count = ground (arith, v.full, v.read_in);
    item = λ i h. absurd (ground (arith, h, v.write_in));
  };
}
