-- ===== src/Cpu/Stack/Interrupt.antt =====
-- `PHP` and `PLP`, and the non-maskable interrupt with `RTI`.
use neschan.Base.{ℕ, ◌+◌, ◌*◌, ◌<◌, ◌≡◌, refl, ap, arith, u8, bit_or, some, ◌∙◌}
use neschan.Base.Table.{all_below}
use neschan.Base.Bits.{equal_below}
use neschan.Memory.Ram.{redirect_addr, is_io_reg}
use neschan.System.State.{System, ◌>>=◌}
use neschan.System.Steps.{>>=-some, >>-some}
use neschan.Cpu.State.{step_cpu, nmi_handler}
use neschan.Cpu.Alu.{plp_status}
use neschan.Cpu.Operand.{push_byte, pop_byte, push_word, pop_word, peek_word}
use neschan.Cpu.Flow.{php, plp, pull_status, rti}
use neschan.Cpu.Exec.{nmi}
use neschan.Cpu.Stack.{LeavesRam, poked, with_s, push_byte_eq, pop_byte_eq, push_word_eq}
use neschan.Cpu.Stack.RoundTrip.{pushed, pushed_word, pushed_bytes, word_at, get_word-plain, jumped}

plp_status-php : (p : ℕ) → p < 256 → plp_status (bit_or p 0x30) p ≡ bit_or p 0x20
plp_status-php p h =
    equal_below 256 (λ p. plp_status (bit_or p 0x30) p) (λ p. bit_or p 0x20) p
      (unfold all_below plp_status in refl) h

plp_status-nmi : (p : ℕ) → p < 256 → plp_status (bit_or p 0x20) p ≡ bit_or p 0x20
plp_status-nmi p h =
    equal_below 256 (λ p. plp_status (bit_or p 0x20) p) (λ p. bit_or p 0x20) p
      (unfold all_below plp_status in refl) h

-- The machine after `push_byte v`.
abbrev pushed_byte : ℕ → System → System
pushed_byte v s = with_s (u8 (s.cpu.s + 255)) (poked (s.cpu.s + 0x100) v s)

popped_byte :
    (v n : ℕ) (t : System)
    → n < 256
    → t.cpu.s ≡ u8 (n + 255)
    → t.mem.ram (n + 0x100) ≡ v
    → pop_byte t ≡ some (v, with_s n t)
popped_byte v n t hn e hv = pop_byte_eq t ∙ ap some (λ i. (value i, with_s (top i) t))
  where
    top : u8 (t.cpu.s + 1) ≡ n
    top = omega arith

    value : t.mem.ram (u8 (t.cpu.s + 1) + 0x100) ≡ v
    value = rw top hv

abbrev with_p : ℕ → System → System
with_p n s = record s { cpu = record (s.cpu) { p = n } }

abbrev stepped : ℕ → System → System
stepped n s = record s { cpu = record (s.cpu) { cycle = s.cpu.cycle + 3 * n } }

pull_status_eq :
    (v : ℕ) (t u : System)
    → pop_byte t ≡ some (v, u)
    → pull_status t ≡ some (tt, with_p (plp_status v u.cpu.p) u)
unfolding ◌>>=◌ pull_status
pull_status_eq v t u e = >>=-some pop_byte _ e

php_eq :
    (s : System)
    → s.cpu.s < 256
    → LeavesRam s.mem.mapper_info
    → php s ≡ some (tt, stepped 3 (pushed_byte (bit_or s.cpu.p 0x30) s))
unfolding ◌>>=◌ php step_cpu
php_eq s hs low =
    >>-some (push_byte (bit_or s.cpu.p 0x30)) _ (push_byte_eq (bit_or s.cpu.p 0x30) s hs low)

-- `PLP` after `PHP` gives the status back, with bit 5 set, and every other register but the cycles as
-- it was. `P` and `S` are bytes, and the mapper's registers lie outside of the internal memory.
pub plp-php :
    (s : System)
    → s.cpu.s < 256
    → s.cpu.p < 256
    → LeavesRam s.mem.mapper_info
    → (t u : System) × (php s ≡ some (tt, t))
      × (plp t ≡ some (tt, u))
      × (u.cpu ≡ record (s.cpu) { p = bit_or s.cpu.p 0x20; cycle = s.cpu.cycle + 3 * 3 + 3 * 4 })
unfolding ◌>>=◌ plp step_cpu
plp-php s hs hp low = (
  t,
  stepped 4 (with_p (plp_status (bit_or s.cpu.p 0x30) s.cpu.p) (with_s s.cpu.s t)),
  php_eq s hs low,
  >>-some pull_status _ (pull_status_eq (bit_or s.cpu.p 0x30) t (with_s s.cpu.s t) popped),
  ap (λ n. record (s.cpu) { p = n; cycle = s.cpu.cycle + 3 * 3 + 3 * 4 })
      (plp_status-php s.cpu.p hp),
)
  where
    t : System
    t = stepped 3 (pushed_byte (bit_or s.cpu.p 0x30) s)

    popped : pop_byte t ≡ some (bit_or s.cpu.p 0x30, with_s s.cpu.s t)
    popped = popped_byte (bit_or s.cpu.p 0x30) s.cpu.s t hs refl (ground arith)

-- The machine in the interrupt handler.
abbrev interrupted : System → System
interrupted s =
    let t = pushed_byte (bit_or s.cpu.p 0x20) (pushed s.cpu.pc s) in
    jumped (word_at t nmi_handler) 7 t

nmi_eq :
    (s : System) → s.cpu.s < 256 → LeavesRam s.mem.mapper_info → nmi s ≡ some (tt, interrupted s)
unfolding ◌>>=◌ nmi step_cpu peek_word redirect_addr is_io_reg
nmi_eq s hs low =
    >>-some (push_word s.cpu.pc) _ (push_word_eq s.cpu.pc s hs low)
    ∙ >>-some (push_byte (bit_or s.cpu.p 0x20)) _
        (push_byte_eq (bit_or s.cpu.p 0x20) (pushed s.cpu.pc s) (omega arith) low)
    ∙ rw (
      get_word-plain nmi_handler (stepped 7 (pushed_byte (bit_or s.cpu.p 0x20) (pushed s.cpu.pc s)))
          refl refl,
      ◌>>=◌,
    )

-- `RTI` after an NMI goes back to the interrupted instruction with `S` as it was, the status with
-- bit 5 set, and all other registers but the cycles unchanged; the handler starts at the word of
-- `$FFFA`. The registers fit their widths, and the mapper's registers lie outside of the internal
-- memory.
pub rti-nmi :
    (s : System)
    → s.cpu.pc < 0x10000
    → s.cpu.s < 256
    → s.cpu.p < 256
    → LeavesRam s.mem.mapper_info
    → (t u : System) × (nmi s ≡ some (tt, t))
      × (t.cpu.pc ≡ word_at t 0xfffa)
      × (rti t ≡ some (tt, u))
      × (u.cpu ≡ record (s.cpu) { p = bit_or s.cpu.p 0x20; cycle = s.cpu.cycle + 3 * 7 + 3 * 6 })
unfolding ◌>>=◌ rti step_cpu
rti-nmi s hpc hs hp low = (
  t,
  jumped s.cpu.pc 6 (with_s s.cpu.s v),
  nmi_eq s hs low,
  refl,
  >>-some pull_status _ (pull_status_eq status t (with_s n t) popped) ∙ >>=-some pop_word _ word,
  ap (λ q. record (s.cpu) { p = q; cycle = s.cpu.cycle + 3 * 7 + 3 * 6 })
      (plp_status-nmi s.cpu.p hp),
)
  where
    status : ℕ
    status = bit_or s.cpu.p 0x20

    n : ℕ
    n = u8 (u8 (s.cpu.s + 255) + 255)

    t : System
    t = interrupted s

    v : System
    v = with_p (plp_status status s.cpu.p) (with_s n t)

    popped : pop_byte t ≡ some (status, with_s n t)
    popped = popped_byte status n t (omega arith) refl (ground arith)

    word : pop_word v ≡ some (s.cpu.pc, with_s s.cpu.s v)
    word =
        pushed_word s.cpu.pc s v hpc hs refl (ground (arith, (pushed_bytes s.cpu.pc s hpc hs).0))
          (ground (arith, (pushed_bytes s.cpu.pc s hpc hs).1))
