-- ===== src/Apu/Audio/Queue.antt =====
-- What a buffer of sound promises: a queue of bytes of a bounded length. A queue is its length and its
-- bytes in order; what stands beyond the length does not matter.
use neschan.Base.{ℕ, ◌+◌, ◌-◌, ◌<◌, ◌≡◌, ltb, leb, if◌then◌else◌, Bytes}

pub record Queue : Type 0 where
  pub count : ℕ
  pub item : Bytes

pub record IsSame (q r : Queue) : Type 0 where
  pub count : q.count ≡ r.count
  pub item : (i : ℕ) → i < q.count → q.item i ≡ r.item i

-- The first bytes, with silence after the last.
abbrev pub heard : Queue → Bytes
heard q i = if ltb i q.count then q.item i else 0

abbrev pub dropped : ℕ → Queue → Queue
dropped n q = record { count = q.count - n; item = λ i. q.item (n + i) }

-- All of the bytes are added, or none when they do not fit.
abbrev pub added : ℕ → Bytes → ℕ → Queue → Queue
added cap src n q =
    if leb (q.count + n) cap
    then record {
      count = q.count + n;
      item = λ i. if ltb i q.count then q.item i else src (i - q.count);
    }
    else q
