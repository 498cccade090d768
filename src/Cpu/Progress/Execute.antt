-- ===== src/Cpu/Progress/Execute.antt =====
-- Every instruction that returns takes two CPU cycles at least, but for `KIL`, which stops the system.
use neschan.Base.{
  ℕ, ◌+◌, ◌≤◌, ◌≡◌, ◌⊎◌, inl, inr, refl, arith, bit_and, bit_or, bit_xor, Bool, true, leb, leb→le,
  Option, none, some,
}
use neschan.Cpu.State.{set_carry_flag, set_interrupt_flag, set_decimal_flag, set_overflow_flag}
use neschan.Cpu.Alu.{adc_val, sbc_val, set_a, set_x, set_y, compare_flags, bit_flags}
use neschan.Cpu.Operand.{AddrMode, get_shift_cycle, get_inc_cycle}
use neschan.Cpu.Table.{Op}
use neschan.Cpu.Instr
use neschan.Cpu.Instr.{stop}
use neschan.Cpu.Flow
use neschan.Cpu.Unofficial
use neschan.Cpu.Unofficial.{carry_then}
use neschan.Cpu.Exec.{execute}
use neschan.System.State.{System, M, pure, ◌>>=◌}
use neschan.System.Hoare.{Holds, Holds-bind}
use neschan.Cpu.Progress.Takes.{Takes, Takes-fault}
use neschan.Cpu.Progress.Instr.{
  read_instr-Takes, rmw_instr-Takes, shift_instr-Takes, inc_instr-Takes, reg_instr-Takes, sta-Takes,
  store_instr-Takes, sax-Takes, pha-Takes, php-Takes, pla-Takes, plp-Takes, rti-Takes, rts-Takes,
  jsr-Takes, jmp-Takes, branch-Takes, brk-Takes, nop-Takes,
}

-- When it returns, the clock has moved on by two cycles of the CPU, or the system is stopped.
pub record Advances {A : Type 0} (m : M A) : Type 0 where
  pub at :
      (s : System)
      → Holds (m s) (λ _ t. (s.cpu.cycle + 6 ≤ t.cpu.cycle) ⊎ (t.stop_requested ≡ true))

weaken :
    {A : Type 0} (r : Option (A × System)) (n : ℕ)
    → Holds r (λ _ t. n ≤ t.cpu.cycle)
    → Holds r (λ _ t. (n ≤ t.cpu.cycle) ⊎ (t.stop_requested ≡ true))
weaken none n h = tt
weaken (some (a, t)) n h = inl h

pub Takes-Advances : {A : Type 0} (m : M A) → Takes 6 m → Advances m
Takes-Advances m h = record { at = λ s. weaken (m s) _ (h.at s) }

pub Advances-le :
    {A : Type 0} (r : Option (A × System)) (m n : ℕ)
    → m ≤ n
    → Holds r (λ _ t. (n + 6 ≤ t.cpu.cycle) ⊎ (t.stop_requested ≡ true))
    → Holds r (λ _ t. (m + 6 ≤ t.cpu.cycle) ⊎ (t.stop_requested ≡ true))
Advances-le none m n le h = tt
Advances-le (some (a, t)) m n le (inl x) = inl (omega arith)
Advances-le (some (a, t)) m n le (inr x) = inr x

pub Advances-then :
    {A B : Type 0} (m : M A) (f : A → M B)
    → Takes 0 m
    → ((a : A) → Advances (f a))
    → Advances (m >>= f)
Advances-then m f h g = record {
  at = λ s.
      Holds-bind m f s (λ _ t. s.cpu.cycle + 0 ≤ t.cpu.cycle) _ (h.at s)
        λ a t le. Advances-le (f a t) s.cpu.cycle t.cpu.cycle (omega arith) ((g a).at t);
}

-- The modes that the tables of the shifts, of `INC` and of `DEC` have.
unfoldable pub is_timed : Op → AddrMode → Bool
is_timed Op.asl mode = leb 2 (get_shift_cycle mode)
is_timed Op.rol mode = leb 2 (get_shift_cycle mode)
is_timed Op.lsr mode = leb 2 (get_shift_cycle mode)
is_timed Op.ror mode = leb 2 (get_shift_cycle mode)
is_timed Op.inc mode = leb 2 (get_inc_cycle mode)
is_timed Op.dec mode = leb 2 (get_inc_cycle mode)
is_timed _ mode = true

-- All instructions but `KIL`.
execute-Takes :
    (op : Op) (mode : AddrMode)
    → is_timed op mode ≡ true
    → (Takes 6 (execute op mode)) ⊎ (execute op mode ≡ stop)
unfolding execute is_timed Flow.kil Instr.adc Instr.and_a Instr.cmp Instr.eor Instr.ora Instr.sbc
    Instr.lda Instr.asl Instr.rol Instr.lsr Instr.ror Instr.ldx Instr.ldy Flow.stx Flow.sty
    Instr.cpx Instr.cpy Instr.tax Instr.tay Instr.tsx Instr.txa Instr.txs Instr.tya Instr.inc
    Instr.inx Instr.iny Instr.dec Instr.dex Instr.dey Instr.sec Instr.sed Instr.sei Instr.clc
    Instr.cld Instr.cli Instr.clv Flow.bcc Flow.bcs Flow.beq Flow.bmi Flow.bne Flow.bpl Flow.bvc
    Flow.bvs Instr.bit Unofficial.slo Unofficial.rla Unofficial.sre Unofficial.rra Unofficial.lax
    Unofficial.dcp Unofficial.isc Unofficial.not_implemented adc_val sbc_val set_a set_x set_y
    compare_flags bit_flags set_decimal_flag set_interrupt_flag set_overflow_flag set_carry_flag
execute-Takes Op.adc mode h = inl (read_instr-Takes _ mode λ v c. refl)
execute-Takes Op.and_a mode h = inl (read_instr-Takes _ mode λ v c. refl)
execute-Takes Op.cmp mode h = inl (read_instr-Takes _ mode λ v c. refl)
execute-Takes Op.eor mode h = inl (read_instr-Takes _ mode λ v c. refl)
execute-Takes Op.ora mode h = inl (read_instr-Takes _ mode λ v c. refl)
execute-Takes Op.sbc mode h = inl (read_instr-Takes _ mode λ v c. refl)
execute-Takes Op.sta mode h = inl (sta-Takes mode)
execute-Takes Op.lda mode h = inl (read_instr-Takes _ mode λ v c. refl)
execute-Takes Op.asl mode h = inl (shift_instr-Takes _ _ mode (leb→le 2 (get_shift_cycle mode) h))
execute-Takes Op.rol mode h = inl (shift_instr-Takes _ _ mode (leb→le 2 (get_shift_cycle mode) h))
execute-Takes Op.lsr mode h = inl (shift_instr-Takes _ _ mode (leb→le 2 (get_shift_cycle mode) h))
execute-Takes Op.ror mode h = inl (shift_instr-Takes _ _ mode (leb→le 2 (get_shift_cycle mode) h))
execute-Takes Op.ldx mode h = inl (read_instr-Takes _ mode λ v c. refl)
execute-Takes Op.ldy mode h = inl (read_instr-Takes _ mode λ v c. refl)
execute-Takes Op.stx mode h = inl (store_instr-Takes _ mode)
execute-Takes Op.sty mode h = inl (store_instr-Takes _ mode)
execute-Takes Op.cpx mode h = inl (read_instr-Takes _ mode λ v c. refl)
execute-Takes Op.cpy mode h = inl (read_instr-Takes _ mode λ v c. refl)
execute-Takes Op.tax mode h = inl (reg_instr-Takes _ 2 (omega arith) λ c. refl)
execute-Takes Op.tay mode h = inl (reg_instr-Takes _ 2 (omega arith) λ c. refl)
execute-Takes Op.tsx mode h = inl (reg_instr-Takes _ 2 (omega arith) λ c. refl)
execute-Takes Op.txa mode h = inl (reg_instr-Takes _ 2 (omega arith) λ c. refl)
execute-Takes Op.txs mode h = inl (reg_instr-Takes _ 2 (omega arith) λ c. refl)
execute-Takes Op.tya mode h = inl (reg_instr-Takes _ 2 (omega arith) λ c. refl)
execute-Takes Op.inc mode h = inl (inc_instr-Takes _ mode (leb→le 2 (get_inc_cycle mode) h))
execute-Takes Op.inx mode h = inl (reg_instr-Takes _ 2 (omega arith) λ c. refl)
execute-Takes Op.iny mode h = inl (reg_instr-Takes _ 2 (omega arith) λ c. refl)
execute-Takes Op.dec mode h = inl (inc_instr-Takes _ mode (leb→le 2 (get_inc_cycle mode) h))
execute-Takes Op.dex mode h = inl (reg_instr-Takes _ 2 (omega arith) λ c. refl)
execute-Takes Op.dey mode h = inl (reg_instr-Takes _ 2 (omega arith) λ c. refl)
execute-Takes Op.sec mode h = inl (reg_instr-Takes _ 2 (omega arith) λ c. refl)
execute-Takes Op.sed mode h = inl (reg_instr-Takes _ 2 (omega arith) λ c. refl)
execute-Takes Op.sei mode h = inl (reg_instr-Takes _ 2 (omega arith) λ c. refl)
execute-Takes Op.clc mode h = inl (reg_instr-Takes _ 2 (omega arith) λ c. refl)
execute-Takes Op.cld mode h = inl (reg_instr-Takes _ 2 (omega arith) λ c. refl)
execute-Takes Op.cli mode h = inl (reg_instr-Takes _ 2 (omega arith) λ c. refl)
execute-Takes Op.clv mode h = inl (reg_instr-Takes _ 2 (omega arith) λ c. refl)
execute-Takes Op.jmp mode h = inl (jmp-Takes mode)
execute-Takes Op.bcc mode h = inl (branch-Takes _)
execute-Takes Op.bcs mode h = inl (branch-Takes _)
execute-Takes Op.beq mode h = inl (branch-Takes _)
execute-Takes Op.bmi mode h = inl (branch-Takes _)
execute-Takes Op.bne mode h = inl (branch-Takes _)
execute-Takes Op.bpl mode h = inl (branch-Takes _)
execute-Takes Op.bvc mode h = inl (branch-Takes _)
execute-Takes Op.bvs mode h = inl (branch-Takes _)
execute-Takes Op.bit mode h = inl (read_instr-Takes _ mode λ v c. refl)
execute-Takes Op.pha mode h = inl (pha-Takes)
execute-Takes Op.php mode h = inl (php-Takes)
execute-Takes Op.pla mode h = inl (pla-Takes)
execute-Takes Op.plp mode h = inl (plp-Takes)
execute-Takes Op.rti mode h = inl (rti-Takes)
execute-Takes Op.jsr mode h = inl (jsr-Takes mode)
execute-Takes Op.rts mode h = inl (rts-Takes)
execute-Takes Op.kil mode h = inr refl
execute-Takes Op.brk mode h = inl (brk-Takes)
execute-Takes Op.nop mode h = inl (nop-Takes mode)
execute-Takes Op.slo mode h =
    inl (rmw_instr-Takes _ (carry_then 0x80 (λ val c. set_a (bit_or c.a val) c)) mode λ v w c. refl)
execute-Takes Op.rla mode h =
    inl
      (rmw_instr-Takes _ (carry_then 0x80 (λ val c. set_a (bit_and c.a val) c)) mode λ v w c. refl)
execute-Takes Op.sre mode h =
    inl (rmw_instr-Takes _ (carry_then 0x1 (λ val c. set_a (bit_xor c.a val) c)) mode λ v w c. refl)
execute-Takes Op.rra mode h = inl (rmw_instr-Takes _ (carry_then 0x1 adc_val) mode λ v w c. refl)
execute-Takes Op.sax mode h = inl (sax-Takes mode)
execute-Takes Op.lax mode h = inl (read_instr-Takes _ mode λ v c. refl)
execute-Takes Op.dcp mode h =
    inl (rmw_instr-Takes _ (λ _ val c. compare_flags c.a val c) mode λ v w c. refl)
execute-Takes Op.isc mode h = inl (rmw_instr-Takes _ (λ _ val. sbc_val val) mode λ v w c. refl)
execute-Takes Op.anc mode h = inl (Takes-fault 6)
execute-Takes Op.alr mode h = inl (Takes-fault 6)
execute-Takes Op.arr mode h = inl (Takes-fault 6)
execute-Takes Op.xaa mode h = inl (Takes-fault 6)
execute-Takes Op.ahx mode h = inl (Takes-fault 6)
execute-Takes Op.tas mode h = inl (Takes-fault 6)
execute-Takes Op.las mode h = inl (Takes-fault 6)
execute-Takes Op.axs mode h = inl (Takes-fault 6)

stop-Advances : Advances stop
unfolding stop pure
stop-Advances = record { at = λ s. inr refl }

pub execute-Advances :
    (op : Op) (mode : AddrMode) → is_timed op mode ≡ true → Advances (execute op mode)
execute-Advances op mode h = elim (execute-Takes op mode h) [
  | inl t ↦ Takes-Advances (execute op mode) t
  | inr e ↦ rw e stop-Advances
]
