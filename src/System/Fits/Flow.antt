-- ===== src/System/Fits/Flow.antt =====
-- Stores on the stack, branches and jumps.
use neschan.Base.{ℕ, ◌+◌, ◌<◌, arith, bit_or, ◌==◌, ◌&&◌, u16, sign_extend, Bool, false}
use neschan.Base.Widths.{or_byte}
use neschan.Cpu.State.{Cpu}
use neschan.Cpu.Alu.{set_a}
use neschan.Cpu.Fits.{set_a-CpuFits, plp_status-lt, set_pc-CpuFits, add_pc-CpuFits}
use neschan.Cpu.Operand.{AddrMode, imp, abs_jmp, ind_jmp, add_pc, push_byte}
use neschan.Cpu.Flow.{
  pha, php, pla, pull_status, plp, set_pc, rti, rts, jsr, jmp, jmp_from, take_branch, branch, brk,
  nop, nop_operand,
}
use neschan.System.State.{pure, get, on_cpu}
use neschan.System.Fits.{
  Fitting, Anything, Quietly, Fitting-then, Fitting-if, Fitting-pure, Fitting-fault, Fitting-get,
  Fitting-on_cpu,
}
use neschan.System.Fits.Operands.{
  get_a, get_p, get_pc, decode_byte-Fitting, push_byte-Fitting, push_word-Fitting, pop_byte-Fitting,
  pop_word-Fitting, decode_operand_addr-Fitting, decode_operand-Fitting, step_cpu-Fitting,
  step_operand-Fitting,
}
use neschan.System.Fits.Instr.{stop-Fitting}

pub pha-Fitting : Quietly pha
unfolding pha
pha-Fitting =
    Fitting-then _ _ get_a
      λ a lt. Fitting-then _ _ (push_byte-Fitting a lt) λ _ _. step_cpu-Fitting 3

pub push_status : (mask : ℕ) → mask < 256 → (p : ℕ) → p < 256 → Quietly (push_byte (bit_or p mask))
push_status mask h p lt = push_byte-Fitting _ (or_byte p mask lt h)

pub php-Fitting : Quietly php
unfolding php
php-Fitting =
    Fitting-then _ _ get_p
      λ p lt. Fitting-then _ _ (push_status 0x30 (omega arith) p lt) λ _ _. step_cpu-Fitting 3

pub pla-Fitting : Quietly pla
unfolding pla
pla-Fitting = Fitting-then _ _ pop_byte-Fitting λ v lt.
    Fitting-then _ _ (Fitting-on_cpu (set_a v) λ c f. set_a-CpuFits v c lt f)
      λ _ _. step_cpu-Fitting 4

pull_status-Fitting : Quietly pull_status
unfolding pull_status
pull_status-Fitting =
    Fitting-then _ _ pop_byte-Fitting
      λ v lt. Fitting-on_cpu _ λ c f. omega (arith, plp_status-lt v c.p lt f.p)

pub plp-Fitting : Quietly plp
unfolding plp
plp-Fitting = Fitting-then _ _ pull_status-Fitting λ _ _. step_cpu-Fitting 4

-- The program counter moves to a word.
pub jump : (addr : ℕ) → addr < 0x10000 → Quietly (on_cpu (set_pc addr))
jump addr lt = Fitting-on_cpu (set_pc addr) λ c f. set_pc-CpuFits addr c lt f

pub rti-Fitting : Quietly rti
unfolding rti
rti-Fitting = Fitting-then _ _ pull_status-Fitting λ _ _.
    Fitting-then _ _ pop_word-Fitting
      λ addr lt. Fitting-then _ _ (jump addr lt) λ _ _. step_cpu-Fitting 6

pub rts-Fitting : Quietly rts
unfolding rts
rts-Fitting =
    Fitting-then _ _ pop_word-Fitting
      λ addr _. Fitting-then _ _ (jump (u16 (addr + 1)) (omega arith)) λ _ _. step_cpu-Fitting 6

pub jsr-Fitting : (mode : AddrMode) → Quietly (jsr mode)
unfolding jsr
jsr-Fitting mode = Fitting-then _ _ get_pc λ pc _.
    Fitting-then _ _ (push_word-Fitting (u16 (pc + 1)) (omega arith)) λ _ _.
      Fitting-then _ _ (decode_operand_addr-Fitting mode)
        λ r lt. Fitting-then _ _ (jump r.0 lt) λ _ _. step_cpu-Fitting 6

get_any : {A : Type 0} (f : Cpu → A) → Fitting Anything (get f)
get_any f = Fitting-get f λ c i. tt

done-Quietly : Quietly (pure tt)
done-Quietly = Fitting-pure tt tt

jmp_from-Fitting : (mode : AddrMode) (n : ℕ) → Quietly (jmp_from mode n)
unfolding jmp_from
jmp_from-Fitting mode n = Fitting-then _ _ (decode_operand_addr-Fitting mode) λ r lt.
    Fitting-then _ _ get_pc λ pc _.
      Fitting-then _ _ (get_any (λ c. c.stop_at_infinite_loop)) λ looping _.
        Fitting-then _ _ (Fitting-if ((r.0 + 1 == pc) && looping) _ _ stop-Fitting done-Quietly)
          λ _ _. Fitting-then _ _ (jump r.0 lt) λ _ _. step_cpu-Fitting n

pub jmp-Fitting : (mode : AddrMode) → Quietly (jmp mode)
unfolding jmp
jmp-Fitting abs_jmp = jmp_from-Fitting abs_jmp 3
jmp-Fitting ind_jmp = jmp_from-Fitting ind_jmp 5
jmp-Fitting _ = Fitting-fault

-- No longer looking for an endless loop.
unlooped : Quietly (on_cpu (λ c. record c { stop_at_infinite_loop = false }))
unlooped = Fitting-on_cpu _ λ c f. omega arith

take_branch-Fitting : (v : ℕ) → Quietly (take_branch v)
unfolding take_branch
take_branch-Fitting v =
    Fitting-then _ _ (Fitting-on_cpu (add_pc (sign_extend v)) (add_pc-CpuFits (sign_extend v)))
      λ _ _. Fitting-then _ _ (get_any (λ c. c.stop_at_infinite_loop)) λ looping _.
        Fitting-if ((v == 0xfe) && looping) _ _ (Fitting-then _ _ stop-Fitting λ _ _. unlooped)
          done-Quietly

pub branch-Fitting : (test : Cpu → Bool) → Quietly (branch test)
unfolding branch
branch-Fitting test = Fitting-then _ _ (get_any test) λ cond _.
    Fitting-then _ _ decode_byte-Fitting λ v _.
      Fitting-then _ _ (Fitting-if cond _ _ (take_branch-Fitting v) done-Quietly)
        λ _ _. Fitting-then _ _ get_pc λ pc _. step_cpu-Fitting _

pub brk-Fitting : Quietly brk
unfolding brk
brk-Fitting = Fitting-then _ _ (step_cpu-Fitting 7) λ _ _. stop-Fitting

nop_operand-Fitting : (mode : AddrMode) → Quietly (nop_operand mode)
unfolding nop_operand
nop_operand-Fitting mode =
    Fitting-then _ _ (decode_operand-Fitting mode)
      λ op _. step_operand-Fitting op.is_page_crossing mode 0

pub nop-Fitting : (mode : AddrMode) → Quietly (nop mode)
unfolding nop
nop-Fitting imp = step_cpu-Fitting 2
nop-Fitting mode = nop_operand-Fitting mode
