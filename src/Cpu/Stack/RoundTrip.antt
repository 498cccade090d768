-- ===== src/Cpu/Stack/RoundTrip.antt =====
-- What is pushed comes back: words, subroutine calls, the status register and interrupts.
use neschan.Base.{
  ℕ, ◌+◌, ◌*◌, ◌%◌, ◌<◌, ◌≡◌, ◌≢◌, refl, ap, arith, false, u8, u16, bit_and, ◌>>>◌, ◌<<<◌, some,
  ◌∙◌,
}
use neschan.Memory.Ram.{redirect_addr, is_io_reg}
use neschan.System.State.{System, ◌>>=◌}
use neschan.System.Bus.{get_byte, get_word}
use neschan.System.Steps.{>>=-some, >>-some}
use neschan.Cpu.State.{step_cpu}
use neschan.Cpu.Operand.{abs_jmp, push_word, pop_word, decode_operand_addr}
use neschan.Cpu.Flow.{jsr, rts}
use neschan.Cpu.Stack.{LeavesRam, poked, with_s, push_word_eq, pop_word_eq, low_byte}

-- The machine after `push_word v`.
abbrev pub pushed : ℕ → System → System
pushed v s =
    with_s (u8 (u8 (s.cpu.s + 255) + 255))
      (poked (u8 (s.cpu.s + 255) + 0x100) (bit_and v 0xff) (poked (s.cpu.s + 0x100) (v >>> 8) s))

pub pushed_word :
    (v : ℕ) (s t : System)
    → v < 0x10000
    → s.cpu.s < 256
    → t.cpu.s ≡ u8 (u8 (s.cpu.s + 255) + 255)
    → t.mem.ram (s.cpu.s + 0x100) ≡ v >>> 8
    → t.mem.ram (u8 (s.cpu.s + 255) + 0x100) ≡ v % 256
    → pop_word t ≡ some (v, with_s s.cpu.s t)
pushed_word v s t hv hs es hi lo = pop_word_eq t ∙ ap some (λ i. (value i, with_s (top i) t))
  where
    first : u8 (t.cpu.s + 1) ≡ u8 (s.cpu.s + 255)
    first = omega arith

    top : u8 (u8 (t.cpu.s + 1) + 1) ≡ s.cpu.s
    top = omega arith

    value :
        t.mem.ram (u8 (u8 (t.cpu.s + 1) + 1) + 0x100) * 256 + t.mem.ram (u8 (t.cpu.s + 1) + 0x100)
        ≡ v
    value = rw (top, first, hi, lo) (omega arith)

-- The pushed word stands in its two bytes of the stack page.
pub pushed_bytes :
    (v : ℕ) (s : System)
    → v < 0x10000
    → s.cpu.s < 256
    → ((pushed v s).mem.ram (s.cpu.s + 0x100) ≡ v >>> 8)
      × ((pushed v s).mem.ram (u8 (s.cpu.s + 255) + 0x100) ≡ v % 256)
pushed_bytes v s hv hs = ground (arith, low_byte v)

-- `pop_word` after `push_word` gives the word back with the stack pointer where it was, for every
-- stack pointer, the wrap around the page included, and no memory but the two bytes of the stack
-- changes. The word has 16 bits, `S` is a byte, and the mapper's registers lie outside of the internal
-- memory.
pub pop_word-push_word :
    (v : ℕ) (s : System)
    → v < 0x10000
    → s.cpu.s < 256
    → LeavesRam s.mem.mapper_info
    → (t : System) × (push_word v s ≡ some (tt, t))
      × (pop_word t ≡ some (v, with_s s.cpu.s t))
      × ((a : ℕ) → a ≢ s.cpu.s + 0x100 → a ≢ u8 (s.cpu.s + 255) + 0x100 → t.mem.ram a ≡ s.mem.ram a)
pop_word-push_word v s hv hs low = (
  pushed v s,
  push_word_eq v s hs low,
  pushed_word v s (pushed v s) hv hs refl (pushed_bytes v s hv hs).0 (pushed_bytes v s hv hs).1,
  λ a h k. ground arith,
)

-- An address that leads to the plain array.
abbrev pub IsPlain : ℕ → Type 0
IsPlain a = is_io_reg (redirect_addr a) ≡ false

abbrev pub byte_at : System → ℕ → ℕ
byte_at s a = s.mem.ram (redirect_addr a)

abbrev pub word_at : System → ℕ → ℕ
word_at s a = byte_at s a + (byte_at s (u16 (a + 1)) <<< 8)

pub get_byte-plain : (a : ℕ) (s : System) → IsPlain a → get_byte a s ≡ some (byte_at s a, s)
unfolding get_byte
get_byte-plain a s h = rw h

pub get_word-plain :
    (a : ℕ) (s : System) → IsPlain a → IsPlain (u16 (a + 1)) → get_word a s ≡ some (word_at s a, s)
unfolding ◌>>=◌ get_word
get_word-plain a s h k =
    >>=-some (get_byte a) _ (get_byte-plain a s h)
    ∙ >>=-some (get_byte (u16 (a + 1))) _ (get_byte-plain (u16 (a + 1)) s k)

-- The registers of the machine with a new `PC` and with cycles added.
abbrev pub jumped : ℕ → ℕ → System → System
jumped pc cycles s = record s { cpu = record (s.cpu) { pc = pc; cycle = s.cpu.cycle + 3 * cycles } }

jsr_eq :
    (s : System)
    → s.cpu.pc < 0x10000
    → s.cpu.s < 256
    → LeavesRam s.mem.mapper_info
    → IsPlain s.cpu.pc
    → IsPlain (u16 (s.cpu.pc + 1))
    → jsr abs_jmp s
      ≡ some (
        tt,
        jumped (word_at (pushed (u16 (s.cpu.pc + 1)) s) s.cpu.pc) 6 (pushed (u16 (s.cpu.pc + 1)) s),
      )
unfolding ◌>>=◌ jsr decode_operand_addr step_cpu
jsr_eq s hp hs low h k =
    >>-some (push_word (u16 (s.cpu.pc + 1))) _ (push_word_eq (u16 (s.cpu.pc + 1)) s hs low)
    ∙ rw (get_word-plain s.cpu.pc (pushed (u16 (s.cpu.pc + 1)) s) h k, ◌>>=◌)

rts_eq :
    (v : ℕ) (t u : System) → pop_word t ≡ some (v, u) → rts t ≡ some (tt, jumped (u16 (v + 1)) 6 u)
unfolding ◌>>=◌ rts step_cpu
rts_eq v t u e = >>=-some pop_word _ e

-- `RTS` after `JSR` continues behind the two bytes of the operand of `JSR`, with the stack pointer
-- where it was; the call takes the word of the operand as its target. Code stands in plain memory,
-- `PC` and `S` fit their widths, and the mapper's registers lie outside of the internal memory.
pub rts-jsr :
    (s : System)
    → s.cpu.pc < 0x10000
    → s.cpu.s < 256
    → LeavesRam s.mem.mapper_info
    → IsPlain s.cpu.pc
    → IsPlain (u16 (s.cpu.pc + 1))
    → (t u : System) × (jsr abs_jmp s ≡ some (tt, t))
      × (t.cpu.pc ≡ word_at t s.cpu.pc)
      × (rts t ≡ some (tt, u))
      × (u.cpu ≡ record (s.cpu) { pc = u16 (s.cpu.pc + 2); cycle = s.cpu.cycle + 3 * 6 + 3 * 6 })
rts-jsr s hp hs low h k = (
  t,
  jumped (u16 (u16 (s.cpu.pc + 1) + 1)) 6 (with_s s.cpu.s t),
  jsr_eq s hp hs low h k,
  refl,
  rts_eq (u16 (s.cpu.pc + 1)) t (with_s s.cpu.s t) popped,
  ap (λ n. record (s.cpu) { pc = n; cycle = s.cpu.cycle + 3 * 6 + 3 * 6 }) (omega arith),
)
  where
    t : System
    t = jumped (word_at (pushed (u16 (s.cpu.pc + 1)) s) s.cpu.pc) 6 (pushed (u16 (s.cpu.pc + 1)) s)

    bytes :
        ((pushed (u16 (s.cpu.pc + 1)) s).mem.ram (s.cpu.s + 0x100) ≡ u16 (s.cpu.pc + 1) >>> 8)
        × ((pushed (u16 (s.cpu.pc + 1)) s).mem.ram (u8 (s.cpu.s + 255) + 0x100)
            ≡ u16 (s.cpu.pc + 1) % 256)
    bytes = pushed_bytes (u16 (s.cpu.pc + 1)) s (omega arith) hs

    popped : pop_word t ≡ some (u16 (s.cpu.pc + 1), with_s s.cpu.s t)
    popped = pushed_word (u16 (s.cpu.pc + 1)) s t (omega arith) hs refl bytes.0 bytes.1
