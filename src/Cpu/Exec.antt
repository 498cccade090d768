-- ===== src/Cpu/Exec.antt =====
-- `nes_cpu::exec_one_instruction`, `NMI`, `OAMDMA` and `step_to` (lib/src/nes_cpu.cpp).
use neschan.Base.{
  ℕ, zero, suc, ◌%◌, bit_or, ◌==◌, ltb, if◌then◌else◌, Bool, true, false, not, ◌&&◌, Option, none,
  some,
}
use neschan.Cpu.State.{step_cpu, nmi_handler}
use neschan.Cpu.Operand.{AddrMode, peek_word, decode_byte, push_byte, push_word}
use neschan.Cpu.Table.{Op, Case, decode}
use neschan.Cpu.Instr
use neschan.Cpu.Flow
use neschan.Cpu.Flow.{set_pc}
use neschan.Cpu.Unofficial
use neschan.System.State.{System, M, ◌>>=◌, ◌>>◌, fault, get, on_cpu}
use neschan.System.Bus.{oam_dma}

-- The call in a case.
unfoldable pub execute : Op → AddrMode → M (Unit {0})
execute Op.adc mode = Instr.adc mode
execute Op.and_a mode = Instr.and_a mode
execute Op.cmp mode = Instr.cmp mode
execute Op.eor mode = Instr.eor mode
execute Op.ora mode = Instr.ora mode
execute Op.sbc mode = Instr.sbc mode
execute Op.sta mode = Flow.sta mode
execute Op.lda mode = Instr.lda mode
execute Op.asl mode = Instr.asl mode
execute Op.rol mode = Instr.rol mode
execute Op.lsr mode = Instr.lsr mode
execute Op.ror mode = Instr.ror mode
execute Op.ldx mode = Instr.ldx mode
execute Op.ldy mode = Instr.ldy mode
execute Op.stx mode = Flow.stx mode
execute Op.sty mode = Flow.sty mode
execute Op.cpx mode = Instr.cpx mode
execute Op.cpy mode = Instr.cpy mode
execute Op.tax mode = Instr.tax
execute Op.tay mode = Instr.tay
execute Op.tsx mode = Instr.tsx
execute Op.txa mode = Instr.txa
execute Op.txs mode = Instr.txs
execute Op.tya mode = Instr.tya
execute Op.inc mode = Instr.inc mode
execute Op.inx mode = Instr.inx
execute Op.iny mode = Instr.iny
execute Op.dec mode = Instr.dec mode
execute Op.dex mode = Instr.dex
execute Op.dey mode = Instr.dey
execute Op.sec mode = Instr.sec
execute Op.sed mode = Instr.sed
execute Op.sei mode = Instr.sei
execute Op.clc mode = Instr.clc
execute Op.cld mode = Instr.cld
execute Op.cli mode = Instr.cli
execute Op.clv mode = Instr.clv
execute Op.jmp mode = Flow.jmp mode
execute Op.bcc mode = Flow.bcc
execute Op.bcs mode = Flow.bcs
execute Op.beq mode = Flow.beq
execute Op.bmi mode = Flow.bmi
execute Op.bne mode = Flow.bne
execute Op.bpl mode = Flow.bpl
execute Op.bvc mode = Flow.bvc
execute Op.bvs mode = Flow.bvs
execute Op.bit mode = Instr.bit mode
execute Op.pha mode = Flow.pha
execute Op.php mode = Flow.php
execute Op.pla mode = Flow.pla
execute Op.plp mode = Flow.plp
execute Op.rti mode = Flow.rti
execute Op.jsr mode = Flow.jsr mode
execute Op.rts mode = Flow.rts
execute Op.kil mode = Flow.kil
execute Op.brk mode = Flow.brk
execute Op.nop mode = Flow.nop mode
execute Op.slo mode = Unofficial.slo mode
execute Op.rla mode = Unofficial.rla mode
execute Op.sre mode = Unofficial.sre mode
execute Op.rra mode = Unofficial.rra mode
execute Op.sax mode = Unofficial.sax mode
execute Op.lax mode = Unofficial.lax mode
execute Op.dcp mode = Unofficial.dcp mode
execute Op.isc mode = Unofficial.isc mode
execute Op.anc mode = Unofficial.not_implemented
execute Op.alr mode = Unofficial.not_implemented
execute Op.arr mode = Unofficial.not_implemented
execute Op.xaa mode = Unofficial.not_implemented
execute Op.ahx mode = Unofficial.not_implemented
execute Op.tas mode = Unofficial.not_implemented
execute Op.las mode = Unofficial.not_implemented
execute Op.axs mode = Unofficial.not_implemented

unfoldable pub nmi : M (Unit {0})
unfolding set_pc
nmi = do
  pc ← get (λ c. c.pc)
  push_word pc
  p ← get (λ c. c.p)
  push_byte (bit_or p 0x20)
  on_cpu (step_cpu 7)
  addr ← peek_word nmi_handler
  on_cpu (set_pc addr)

-- `OAMDMA`: `_cycle % 2` picks 514 or 513 cycles.
unfoldable pub oamdma : M (Unit {0})
oamdma = do
  addr ← get (λ c. c.dma_addr)
  oam_dma addr
  cycle ← get (λ c. c.cycle)
  on_cpu (step_cpu (if cycle % 2 == 0 then 514 else 513))

-- The stop at an address.
unfoldable pub check_stop : System → System
check_stop s =
    if s.cpu.is_stop_at_addr && (s.cpu.stop_at_addr == s.cpu.pc)
    then record s { stop_requested = true; cpu = record (s.cpu) { is_stop_at_addr = false } }
    else s

-- The `default` of the switch is `assert(false)`.
unfoldable pub run_case : Option Case → M (Unit {0})
run_case none = fault
run_case (some c) = execute c.op c.mode

unfoldable pub exec_op : M (Unit {0})
unfolding run_case
exec_op = do op_code ← decode_byte; run_case (decode op_code)

unfoldable pub exec_nmi : M (Unit {0})
exec_nmi = do nmi; on_cpu (λ c. record c { nmi_pending = false })

unfoldable pub exec_dma : M (Unit {0})
exec_dma = do oamdma; on_cpu (λ c. record c { dma_pending = false })

unfoldable pub exec_pending : M (Unit {0})
unfolding exec_op exec_nmi exec_dma
exec_pending s =
    if s.cpu.nmi_pending then exec_nmi s else if s.cpu.dma_pending then exec_dma s else exec_op s

unfoldable pub exec_one_instruction : M (Unit {0})
unfolding check_stop exec_pending
exec_one_instruction s = exec_pending (check_stop s)

-- How a loop on fuel ends: with its test false, with a fault, or with no fuel left.
pub data Outcome : Type 0 where
  done : System → Outcome
  faulted out_of_fuel : Outcome

-- The test of the loop in `step_to`.
abbrev pub running : ℕ → System → Bool
running new_count s = ltb s.cpu.cycle new_count && not s.stop_requested

unfoldable pub step_to : ℕ → ℕ → System → Outcome
step_to zero new_count s = if running new_count s then out_of_fuel else done s
step_to (suc fuel) new_count s = elim (running new_count s) [
  | false ↦ done s
  | true ↦ elim (exec_one_instruction s) [
    | none ↦ faulted
    | some (_, s') ↦ step_to fuel new_count s'
  ]
]
