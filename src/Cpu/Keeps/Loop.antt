-- ===== src/Cpu/Keeps/Loop.antt =====
-- One instruction, interrupt or OAM transfer, and the loop of `nes_cpu::step_to`.
use neschan.Base.{
  ℕ, zero, suc, bit_and, bit_or, bit_xor, ◌==◌, ◌&&◌, if◌then◌else◌, Bool, true, false, Bool-cases,
  inl, inr, Option, none, some,
}
use neschan.Cpu.Operand.{AddrMode}
use neschan.Cpu.Table.{Op, Case}
use neschan.Cpu.Instr
use neschan.Cpu.Flow
use neschan.Cpu.Unofficial
use neschan.Cpu.Unofficial.{carry_then}
use neschan.Cpu.Alu.{adc_val, sbc_val, set_a, compare_flags}
use neschan.Cpu.Exec.{
  execute, nmi, oamdma, check_stop, run_case, exec_op, exec_nmi, exec_dma, exec_pending,
  exec_one_instruction, Outcome, done, faulted, out_of_fuel, running, step_to,
}
use neschan.System.State.{System}
use neschan.System.Hoare.{Holds}
use neschan.System.Bus.{oam_dma}
use neschan.Cpu.Keeps.{Keeps, IsOutside, Keeps-fault, keeps_rules}
use neschan.Cpu.Keeps.Operands.{
  peek_word-Keeps, decode_byte-Keeps, push_byte-Keeps, push_word-Keeps,
}
use neschan.Cpu.Keeps.Execute.{
  branch-Keeps, brk-Keeps, inc_instr-Keeps, jmp-Keeps, jsr-Keeps, nop-Keeps, pha-Keeps, php-Keeps,
  pla-Keeps, plp-Keeps, read_instr-Keeps, reg_instr-Keeps, rmw_instr-Keeps, rti-Keeps, rts-Keeps,
  sax-Keeps, shift_instr-Keeps, sta-Keeps, stop-Keeps, store_instr-Keeps,
}

execute-Keeps :
    {I : System → Type 0} (op : Op) (mode : AddrMode) → IsOutside I → Keeps I (execute op mode)
unfolding execute Flow.kil Instr.adc Instr.and_a Instr.cmp Instr.eor Instr.ora Instr.sbc Instr.lda
    Instr.asl Instr.rol Instr.lsr Instr.ror Instr.ldx Instr.ldy Flow.stx Flow.sty Instr.cpx
    Instr.cpy Instr.tax Instr.tay Instr.tsx Instr.txa Instr.txs Instr.tya Instr.inc Instr.inx
    Instr.iny Instr.dec Instr.dex Instr.dey Instr.sec Instr.sed Instr.sei Instr.clc Instr.cld
    Instr.cli Instr.clv Flow.bcc Flow.bcs Flow.beq Flow.bmi Flow.bne Flow.bpl Flow.bvc Flow.bvs
    Instr.bit Unofficial.slo Unofficial.rla Unofficial.sre Unofficial.rra Unofficial.lax
    Unofficial.dcp Unofficial.isc Unofficial.not_implemented
execute-Keeps Op.adc mode o = read_instr-Keeps o _ mode
execute-Keeps Op.and_a mode o = read_instr-Keeps o _ mode
execute-Keeps Op.cmp mode o = read_instr-Keeps o _ mode
execute-Keeps Op.eor mode o = read_instr-Keeps o _ mode
execute-Keeps Op.ora mode o = read_instr-Keeps o _ mode
execute-Keeps Op.sbc mode o = read_instr-Keeps o _ mode
execute-Keeps Op.sta mode o = sta-Keeps o mode
execute-Keeps Op.lda mode o = read_instr-Keeps o _ mode
execute-Keeps Op.asl mode o = shift_instr-Keeps o _ _ mode
execute-Keeps Op.rol mode o = shift_instr-Keeps o _ _ mode
execute-Keeps Op.lsr mode o = shift_instr-Keeps o _ _ mode
execute-Keeps Op.ror mode o = shift_instr-Keeps o _ _ mode
execute-Keeps Op.ldx mode o = read_instr-Keeps o _ mode
execute-Keeps Op.ldy mode o = read_instr-Keeps o _ mode
execute-Keeps Op.stx mode o = store_instr-Keeps o _ mode
execute-Keeps Op.sty mode o = store_instr-Keeps o _ mode
execute-Keeps Op.cpx mode o = read_instr-Keeps o _ mode
execute-Keeps Op.cpy mode o = read_instr-Keeps o _ mode
execute-Keeps Op.tax mode o = reg_instr-Keeps o _ 2
execute-Keeps Op.tay mode o = reg_instr-Keeps o _ 2
execute-Keeps Op.tsx mode o = reg_instr-Keeps o _ 2
execute-Keeps Op.txa mode o = reg_instr-Keeps o _ 2
execute-Keeps Op.txs mode o = reg_instr-Keeps o _ 2
execute-Keeps Op.tya mode o = reg_instr-Keeps o _ 2
execute-Keeps Op.inc mode o = inc_instr-Keeps o _ mode
execute-Keeps Op.inx mode o = reg_instr-Keeps o _ 2
execute-Keeps Op.iny mode o = reg_instr-Keeps o _ 2
execute-Keeps Op.dec mode o = inc_instr-Keeps o _ mode
execute-Keeps Op.dex mode o = reg_instr-Keeps o _ 2
execute-Keeps Op.dey mode o = reg_instr-Keeps o _ 2
execute-Keeps Op.sec mode o = reg_instr-Keeps o _ 2
execute-Keeps Op.sed mode o = reg_instr-Keeps o _ 2
execute-Keeps Op.sei mode o = reg_instr-Keeps o _ 2
execute-Keeps Op.clc mode o = reg_instr-Keeps o _ 2
execute-Keeps Op.cld mode o = reg_instr-Keeps o _ 2
execute-Keeps Op.cli mode o = reg_instr-Keeps o _ 2
execute-Keeps Op.clv mode o = reg_instr-Keeps o _ 2
execute-Keeps Op.jmp mode o = jmp-Keeps o mode
execute-Keeps Op.bcc mode o = branch-Keeps o _
execute-Keeps Op.bcs mode o = branch-Keeps o _
execute-Keeps Op.beq mode o = branch-Keeps o _
execute-Keeps Op.bmi mode o = branch-Keeps o _
execute-Keeps Op.bne mode o = branch-Keeps o _
execute-Keeps Op.bpl mode o = branch-Keeps o _
execute-Keeps Op.bvc mode o = branch-Keeps o _
execute-Keeps Op.bvs mode o = branch-Keeps o _
execute-Keeps Op.bit mode o = read_instr-Keeps o _ mode
execute-Keeps Op.pha mode o = pha-Keeps o
execute-Keeps Op.php mode o = php-Keeps o
execute-Keeps Op.pla mode o = pla-Keeps o
execute-Keeps Op.plp mode o = plp-Keeps o
execute-Keeps Op.rti mode o = rti-Keeps o
execute-Keeps Op.jsr mode o = jsr-Keeps o mode
execute-Keeps Op.rts mode o = rts-Keeps o
execute-Keeps Op.kil mode o = stop-Keeps o
execute-Keeps Op.brk mode o = brk-Keeps o
execute-Keeps Op.nop mode o = nop-Keeps o mode
execute-Keeps Op.slo mode o =
    rmw_instr-Keeps o _ (carry_then 0x80 (λ val c. set_a (bit_or c.a val) c)) mode
execute-Keeps Op.rla mode o =
    rmw_instr-Keeps o _ (carry_then 0x80 (λ val c. set_a (bit_and c.a val) c)) mode
execute-Keeps Op.sre mode o =
    rmw_instr-Keeps o _ (carry_then 0x1 (λ val c. set_a (bit_xor c.a val) c)) mode
execute-Keeps Op.rra mode o = rmw_instr-Keeps o _ (carry_then 0x1 adc_val) mode
execute-Keeps Op.sax mode o = sax-Keeps o mode
execute-Keeps Op.lax mode o = read_instr-Keeps o _ mode
execute-Keeps Op.dcp mode o = rmw_instr-Keeps o _ (λ _ val c. compare_flags c.a val c) mode
execute-Keeps Op.isc mode o = rmw_instr-Keeps o _ (λ _ val. sbc_val val) mode
execute-Keeps Op.anc mode o = Keeps-fault
execute-Keeps Op.alr mode o = Keeps-fault
execute-Keeps Op.arr mode o = Keeps-fault
execute-Keeps Op.xaa mode o = Keeps-fault
execute-Keeps Op.ahx mode o = Keeps-fault
execute-Keeps Op.tas mode o = Keeps-fault
execute-Keeps Op.las mode o = Keeps-fault
execute-Keeps Op.axs mode o = Keeps-fault

run_case-Keeps : {I : System → Type 0} (r : Option Case) → IsOutside I → Keeps I (run_case r)
unfolding run_case
run_case-Keeps none o = Keeps-fault
run_case-Keeps (some c) o = execute-Keeps c.op c.mode o

module _ {I : System → Type 0} (o : IsOutside I) where
  nmi-Keeps : Keeps I nmi
  unfolding nmi
  nmi-Keeps = search (keeps_rules, push_word-Keeps, push_byte-Keeps, peek_word-Keeps) depth 8

  exec_nmi-Keeps : Keeps I exec_nmi
  unfolding exec_nmi
  exec_nmi-Keeps = search (keeps_rules, nmi-Keeps)

  oam_dma-Keeps : (a : ℕ) → Keeps I (oam_dma a)
  oam_dma-Keeps a = o.dma a

  oamdma-Keeps : Keeps I oamdma
  unfolding oamdma
  oamdma-Keeps = search (keeps_rules, oam_dma-Keeps)

  exec_dma-Keeps : Keeps I exec_dma
  unfolding exec_dma
  exec_dma-Keeps = search (keeps_rules, oamdma-Keeps)

  exec_op-Keeps : Keeps I exec_op
  unfolding exec_op
  exec_op-Keeps = search (keeps_rules, decode_byte-Keeps, λ (r : Option Case). run_case-Keeps r o)

  pick :
      (nmi_pending dma_pending : Bool) (s : System)
      → I s
      → Holds
          (if nmi_pending then exec_nmi s else if dma_pending then exec_dma s else exec_op s)
          (λ _ t. I t)
  pick true b s i = exec_nmi-Keeps.at s i
  pick false true s i = exec_dma-Keeps.at s i
  pick false false s i = exec_op-Keeps.at s i

  exec_pending-Keeps : Keeps I exec_pending
  unfolding exec_pending
  exec_pending-Keeps = record { at = λ s i. pick s.cpu.nmi_pending s.cpu.dma_pending s i }

  check_stop-Keeps : (s : System) → I s → I (check_stop s)
  unfolding check_stop
  check_stop-Keeps s i =
      elim (Bool-cases (s.cpu.is_stop_at_addr && (s.cpu.stop_at_addr == s.cpu.pc))) [
        | inl e ↦ rw e (o.stop true _ (o.cpu (λ c. record c { is_stop_at_addr = false }) s i))
        | inr e ↦ rw e i
      ]

-- Whatever a machine has that looks neither at the registers of the CPU nor at the request to stop,
-- and that reads, writes and OAM transfers on the bus keep, every instruction and interrupt keeps.
pub exec_one_instruction-Keeps : {I : System → Type 0} → IsOutside I → Keeps I exec_one_instruction
unfolding exec_one_instruction
exec_one_instruction-Keeps o = record {
  at = λ s i. (exec_pending-Keeps o).at (check_stop s) (check_stop-Keeps o s i);
}

-- What an outcome of the loop has, when it is done.
abbrev pub Leaves : (System → Type 0) → Outcome → Type 0
Leaves I (done s) = I s
Leaves I faulted = Unit
Leaves I out_of_fuel = Unit

next-Leaves :
    {I : System → Type 0} (fuel new_count : ℕ) (r : Option (Unit {0} × System))
    → ((t : System) → I t → Leaves I (step_to fuel new_count t))
    → Holds r (λ _ t. I t)
    → Leaves I (elim r [ none ↦ faulted | some (_, s') ↦ step_to fuel new_count s' ])
next-Leaves fuel new_count none k h = tt
next-Leaves fuel new_count (some (u, t)) k h = k t h

still-Leaves :
    (I : System → Type 0) (b : Bool) (s : System)
    → I s
    → Leaves I (if b then out_of_fuel else done s)
still-Leaves I true s i = tt
still-Leaves I false s i = i

-- The loop of the CPU keeps what each instruction keeps.
pub step_to-Leaves :
    {I : System → Type 0} (fuel new_count : ℕ) (s : System)
    → IsOutside I
    → I s
    → Leaves I (step_to fuel new_count s)
unfolding step_to
step_to-Leaves {I} zero new_count s o i = still-Leaves I (running new_count s) s i
step_to-Leaves {I} (suc fuel) new_count s o i = elim (Bool-cases (running new_count s)) [
  | inl e ↦
      rw (e, step_to)
        (next-Leaves fuel new_count (exec_one_instruction s)
          (λ t j. step_to-Leaves fuel new_count t o j) ((exec_one_instruction-Keeps o).at s i))
  | inr e ↦ rw (e, step_to) i
]
